-- ===== src/State/Apply/Twice.antt =====
-- Records of state/state.go that arrive twice.
use sap.Base.{ℕ, ◌≡◌, refl, sym, ap, ◌∙◌, String, Option, none, some, if_pos, str_dec, arith}
use mathlib.Core.Option.{some-ne-none}
use sap.Base.Text.{ite_ind, if_ind, Option-ind}
use sap.Base.Maps.{insert}
use sap.Message.Started
use sap.Message.Started.{SpanStarted}
use sap.Message.Proto.{Proto}
use sap.State.Store.{Store}
use sap.State.Apply.{track, add_root, add_under, attach, new_span, apply_started}

module _ (p : Proto) where
  again :
      (m : SpanStarted p.Timestamp) (s : Store) (a : ℕ)
      → s.by_id (Started.get_span_id (some m)) ≡ some a
      → apply_started p (some m) s ≡ s
  unfolding apply_started new_span
  again m s a e =
      ite_ind (λ x. x ≡ s) (str_dec (Started.get_span_id (some m)) "") (λ _. refl)
        (λ _.
          Option-ind (λ x. x ≡ s) (s.by_id (Started.get_span_id (some m)))
            (λ q. absurd (some-ne-none a (sym e ∙ q))) (λ _ _. refl))

  module _ (m : SpanStarted p.Timestamp) (s : Store) where
    Settled : Store → Type 0
    Settled x = apply_started p (some m) x ≡ x

    added-Settled :
        (n : ℕ) (x : Store) → x.by_id ≡ insert (Started.get_span_id (some m)) n s.by_id → Settled x
    unfolding Settled
    added-Settled n x e = again m x n (
        ap (λ (b : String → Option ℕ). b (Started.get_span_id (some m))) e
        ∙ if_pos (str_dec (Started.get_span_id (some m)) (Started.get_span_id (some m))) refl _ _)

    attach-Settled :
        (o : Option ℕ)
        → s.by_id (Started.get_parent_span_id (some m)) ≡ o
        → ¬ (Started.get_span_id (some m) ≡ "")
        → s.by_id (Started.get_span_id (some m)) ≡ none
        → Settled (attach o (new_span p s.next_addr m) s)
    unfolding apply_started new_span attach add_root add_under track Settled
    attach-Settled (some a) r n q = added-Settled s.next_addr _ refl
    attach-Settled none r n q =
        ite_ind Settled (str_dec parent "") (λ _. added-Settled s.next_addr _ refl)
          (λ k.
            if_ind Settled s.allow_unknown_parents (λ _. added-Settled s.next_addr _ refl)
              (λ b. ground (arith, n, q, r, k, b)))
      where
        parent : String
        parent = Started.get_parent_span_id (some m)

    -- The record of a start that is applied twice in a row has the effect of one: a span is not added
    -- a second time, and a record that is dropped for its parent is dropped again.
    pub apply_started-twice :
        apply_started p (some m) (apply_started p (some m) s) ≡ apply_started p (some m) s
    unfolding apply_started new_span Settled
    apply_started-twice =
        ite_ind Settled (str_dec (Started.get_span_id (some m)) "")
          (λ e. if_pos (str_dec (Started.get_span_id (some m)) "") e _ _)
          (λ n.
            Option-ind Settled (s.by_id (Started.get_span_id (some m)))
              (λ q. attach-Settled (s.by_id (Started.get_parent_span_id (some m))) refl n q)
              (λ a q. again m s a q))
