-- ===== src/Web/Subscribers.antt =====
-- subscribe of viewer/sap-web/server.go, the function that it returns, and a receive, on a server that
-- satisfies the invariant.
use sap.Base.{
  ℕ, suc, ◌≤◌, ◌≡◌, refl, sym, ap, subst, ◌∙◌, ◌≢◌, inl, inr, Option, none, some, List, [], ◌∷◌,
  false, if_pos, String, ℕ_discrete, arith,
}
use mathlib.Core.Option.{some-injective, some-ne-none}
use sap.Base.Lists.{In-eq, here, there, In-uncons, length}
use sap.Base.Remove.{remove, In-remove, remove-In, remove-Distinct}
use sap.Base.Text.{if_ind, Option-ind}
use sap.Hub.{Chan, Received, put, is_sub}
use sap.Hub.Invariant.{Open, put-miss}
use sap.Hub.Calls.{put-cases, true_or_false, is_sub-In}
use sap.Hub.Safe.{Bounded, shut_chan, close_chan-Open}
use sap.Message.Proto.{Time}
use sap.Web.Server.{Templates, Snapshot, Server, status_of, snapshot_locked}
use sap.Web.Session.{unsubscribe, receive, receive_from, subscribe}
use sap.Web.Invariant.{Shows, Channels, Stored, Inv}
use sap.Web.Broadcast.{Runs}

Shows-tail :
    {status : String} (q : Snapshot) (qs : List Snapshot) → Shows status (q ∷ qs) → Shows status qs
Shows-tail q [] h r l = absurd (some-ne-none r (sym l))
Shows-tail q (x ∷ qs) h r l = h r l

module _ (t : Templates) (s : Server) (v : Inv t s) where
  not_next : (a : ℕ) (c : Chan Snapshot) → s.chans a ≡ some c → a ≢ s.next
  not_next a c p e =
      some-ne-none c (sym p ∙ v.channels.fresh a (subst (λ n. n ≤ a) e (omega arith)))

  -- Another channel than the one that changes.
  other-Open : (c : Chan Snapshot) (a b : ℕ) → b ≢ a → Open s.chans b → Open (put a c s.chans) b
  other-Open c a b n (c', p, q) = (c', put-miss a b c s.chans n ∙ p, q)

  same-Stored :
      (chans : ℕ → Option (Chan Snapshot)) (next : ℕ) (subs : List ℕ)
      → Stored (record s { chans = chans; next = next; subscribers = subs })
  same-Stored chans next subs = record {
    store-Inv = v.stored.store-Inv;
    positive = v.stored.positive;
    few = v.stored.few;
  }

  new-Channels :
      (c : Chan Snapshot)
      → Bounded c
      → c.closed ≡ false
      → Channels (record s {
        chans = put s.next c s.chans;
        next = suc s.next;
        subscribers = s.next ∷ s.subscribers;
      })
  new-Channels c b q = record {
    distinct = (
      λ i. let (c', p, _) = v.channels.sub-Open s.next i in not_next s.next c' p refl,
      v.channels.distinct,
    );
    sub-Open = λ a i. elim (In-uncons i) [
      | inl e ↦ (c, if_pos (ℕ_discrete a s.next) e _ _, q)
      | inr j ↦ (let o = v.channels.sub-Open a j in other-Open c s.next a (not_next a o.0 o.1) o)
    ];
    Open-sub = λ a (c', p', q'). elim (put-cases s.next a c c' s.chans p') [
      | inl (e, _) ↦ here s.next e
      | inr (_, p) ↦ there s.next (v.channels.Open-sub a (c', p, q'))
    ];
    fresh = λ a l.
        put-miss s.next a c s.chans (λ e. ground (arith, e, l))
        ∙ v.channels.fresh a (omega (arith, l));
    bounded = λ a c' p'. elim (put-cases s.next a c c' s.chans p') [
      | inl (_, e) ↦ subst Bounded (sym e) b
      | inr (_, p) ↦ v.channels.bounded a c' p
    ];
  }

  -- A subscriber that comes starts with a full snapshot, and the invariant holds.
  pub subscribe-Inv : (now : Time) → Inv t (subscribe t now s).0
  unfolding subscribe snapshot_locked status_of
  subscribe-Inv now = record {
    channels = new-Channels first (omega arith, omega arith) refl;
    stored = same-Stored (put s.next first s.chans) (suc s.next) (s.next ∷ s.subscribers);
    current = λ a c i p. elim (put-cases s.next a first c s.chans p) [
      | inl (_, e) ↦
          subst (λ (x : Chan Snapshot). Shows (status_of t s) x.queue) (sym e)
            (λ r l. ap (λ x. x.status_html) (sym (some-injective first_item r l)))
      | inr (n, p') ↦ elim (In-uncons i) [ inl e ↦ absurd (n e) | inr j ↦ v.current a c j p' ]
    ];
  }
    where
      first_item : Snapshot
      first_item = snapshot_locked t now s

      first : Chan Snapshot
      first = record { capacity = 8; queue = first_item ∷ []; closed = false }

  module _ (a : ℕ) (c : Chan Snapshot) (p : s.chans a ≡ some c) where
    not_a : (b : ℕ) → s.next ≤ b → b ≢ a
    not_a b l e = some-ne-none c (sym p ∙ ap s.chans (sym e) ∙ v.channels.fresh b l)

    put-Bounded :
        (c' : Chan Snapshot)
        → Bounded c'
        → (b : ℕ) (x : Chan Snapshot) → put a c' s.chans b ≡ some x
        → Bounded x
    put-Bounded c' h b x e = elim (put-cases a b c' x s.chans e) [
      | inl (_, q) ↦ subst Bounded (sym q) h
      | inr (_, p') ↦ v.channels.bounded b x p'
    ]

    drop_sub-Inv :
        c.closed ≡ false
        → Inv t (record s {
          chans = put a (shut_chan c) s.chans;
          subscribers = remove ℕ_discrete a s.subscribers;
        })
    unfolding status_of
    drop_sub-Inv q = record {
      channels = record {
        distinct = remove-Distinct ℕ_discrete a s.subscribers v.channels.distinct;
        sub-Open = λ b i.
            let (j, n) = remove-In ℕ_discrete b a s.subscribers i in
            other-Open (shut_chan c) a b n (v.channels.sub-Open b j);
        Open-sub = λ b (c', p', q'). elim (put-cases a b (shut_chan c) c' s.chans p') [
          | inl (_, e) ↦ absurd (true_or_false (sym (ap (λ x. x.closed) e) ∙ q'))
          | inr (n, p'') ↦
              In-remove ℕ_discrete b a s.subscribers (v.channels.Open-sub b (c', p'', q')) n
        ];
        fresh = λ b l. put-miss a b (shut_chan c) s.chans (not_a b l) ∙ v.channels.fresh b l;
        bounded = put-Bounded (shut_chan c) (v.channels.bounded a c p);
      };
      stored = same-Stored (put a (shut_chan c) s.chans) s.next (remove ℕ_discrete a s.subscribers);
      current = λ b x i e.
          let (j, n) = remove-In ℕ_discrete b a s.subscribers i in
          v.current b x j (sym (put-miss a b (shut_chan c) s.chans n) ∙ e);
    }

    -- A queue that loses items in front has the same newest item, unless it is empty.
    set_queue-Inv :
        (q : Snapshot) (qs : List Snapshot)
        → c.queue ≡ q ∷ qs
        → Inv t (record s { chans = put a (record c { queue = qs }) s.chans })
    unfolding status_of
    set_queue-Inv q qs e = record {
      channels = record {
        distinct = v.channels.distinct;
        sub-Open = λ b i. elim (ℕ_discrete b a) [
          | yes r ↦ (
            record c { queue = qs },
            if_pos (ℕ_discrete b a) r _ _,
            (let (c', p', q') = v.channels.sub-Open b i in
                ap (λ x. x.closed) (some-injective c c' (sym p ∙ ap s.chans (sym r) ∙ p')) ∙ q'),
          )
          | no n ↦ other-Open (record c { queue = qs }) a b n (v.channels.sub-Open b i)
        ];
        Open-sub = λ b (c', p', q'). elim (put-cases a b (record c { queue = qs }) c' s.chans p') [
          | inl (r, r') ↦
              v.channels.Open-sub b (c, ap s.chans r ∙ p, sym (ap (λ x. x.closed) r') ∙ q')
          | inr (n, p'') ↦ v.channels.Open-sub b (c', p'', q')
        ];
        fresh = λ b l. put-miss a b _ s.chans (not_a b l) ∙ v.channels.fresh b l;
        bounded =
            put-Bounded (record c { queue = qs })
              (
                omega (arith, ap length e, (v.channels.bounded a c p).0),
                (v.channels.bounded a c p).1,
              );
      };
      stored = same-Stored (put a (record c { queue = qs }) s.chans) s.next s.subscribers;
      current = λ b x i r. elim (put-cases a b (record c { queue = qs }) x s.chans r) [
        | inl (n, r') ↦
            subst (λ (y : Chan Snapshot). Shows (status_of t s) y.queue) (sym r')
              (Shows-tail q qs (subst (Shows (status_of t s)) e (v.current a c (In-eq n i) p)))
        | inr (n, p') ↦ v.current b x i p'
      ];
    }

  pub unsubscribe-Runs : (a : ℕ) → Runs t (unsubscribe a s)
  unfolding unsubscribe
  unsubscribe-Runs a =
      if_ind (Runs t) (is_sub a s.subscribers)
        (λ q.
          let (c, p, o) = v.channels.sub-Open a (is_sub-In a s.subscribers q) in
          subst
            (λ (m : Option (ℕ → Option (Chan Snapshot))). Runs t (elim m [
              | none ↦ none
              | some m ↦
                  some (record s { chans = m; subscribers = remove ℕ_discrete a s.subscribers })
            ]))
            (sym (close_chan-Open a c s.chans p o)) (_, refl, drop_sub-Inv a c p o))
        (λ _. (s, refl, v))

  pub receive-Inv : (a : ℕ) → Inv t (receive a s).0
  unfolding receive receive_from
  receive-Inv a =
      Option-ind (λ (x : Server × Received Snapshot). Inv t x.0) (s.chans a) (λ _. v)
        (λ c p. from c c.queue p refl)
    where
      from :
          (c : Chan Snapshot) (q : List Snapshot)
          → s.chans a ≡ some c
          → c.queue ≡ q
          → Inv t (receive_from a c q s).0
      from c [] p e = v
      from c (x ∷ q) p e = set_queue-Inv a c p x q e
