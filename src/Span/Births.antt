-- ===== src/Span/Births.antt =====
-- What the start of a span of sap.go does to the lives of the spans.
use mathlib.Core.Path.{ap₂}
use sap.Base.{
  ℕ, suc, ◌+◌, ◌≤◌, ◌<◌, ◌≡◌, sym, ap, subst, ◌∙◌, ◌≢◌, inl, inr, String, none, some, [], ◌∷◌, ◌++◌,
  false, if_neg, ℕ_discrete, arith,
}
use mathlib.Core.Option.{some-injective, some-ne-none}
use sap.Message.{Record, span_started}
use sap.Message.Started.{SpanStarted}
use sap.Span.{Span, Runtime, put_span, alloc}
use sap.Span.Life.{Life, started, Lives, Unique, of_span, span_id_of, of_span-own, of_span-other}
use sap.Span.Changes.{put_span-cases}

module _ {T : Type 0} {id : ℕ → String} {bound : ℕ} (rt : Runtime T) (v : Lives id bound rt)
    (s : Span) where
  new-fresh : (b : ℕ) → suc rt.next ≤ b → put_span rt.next s rt.spans b ≡ none
  unfolding put_span
  new-fresh b l =
      if_neg (ℕ_discrete b rt.next) (λ e. absurd (omega (arith, e, l))) _ _
      ∙ v.fresh b (omega (arith, l))

  not_new : (b : ℕ) (t : Span) → rt.spans b ≡ some t → b ≢ rt.next
  not_new b t e q = some-ne-none t (sym e ∙ v.fresh b (subst (λ n. n ≤ b) q (omega arith)))

  -- An inert span.
  pub alloc-Lives : s.hub ≡ none → Lives id bound (alloc s rt)
  unfolding alloc
  alloc-Lives q = record {
    fresh = new-fresh;
    life = λ b t g y e. (let (y', _) = old b t g y e in v.life b t g y' e);
    named = λ b t g y e. (let (y', _) = old b t g y e in v.named b t g y' e);
    single =
        λ b c t w g g' y z e f i. v.single b c t w g g' (old b t g y e).0 (old c w g' z f).0 e f i;
    unread = v.unread;
  }
    where
      old :
          (b : ℕ) (t : Span) (g : ℕ)
          → put_span rt.next s rt.spans b ≡ some t
          → t.hub ≡ some g
          → (rt.spans b ≡ some t) × (b ≢ rt.next)
      old b t g y e = elim (put_span-cases rt v rt.next b s t y) [
        | inl (_, x) ↦ absurd (some-ne-none g (sym e ∙ ap (λ z. z.hub) x ∙ q))
        | inr (n, y') ↦ (y', n)
      ]

  -- A span with the next ID, and the record of its start.
  module _ (h : ℕ) (r : Record T) (m : SpanStarted T) (n used : ℕ) (q : s.hub ≡ some h)
      (alive : s.ended ≡ false) (is_next : s.span_id ≡ id rt.ids_read)
      (kind : r.kind ≡ span_started m) (own : span_id_of r.kind ≡ s.span_id) (some_used : 1 ≤ used)
      (u : Unique id bound) (l : rt.ids_read + used ≤ bound) where
    not_older :
        (b : ℕ) (t : Span) (g : ℕ) → rt.spans b ≡ some t → t.hub ≡ some g → s.span_id ≢ t.span_id
    not_older b t g y e i =
        let (k, lk, ek) = v.named b t g y e in
        absurd (
          omega (
            arith,
            u rt.ids_read k (omega (arith, l, some_used)) (omega (arith, l, lk))
                (sym is_next ∙ i ∙ ek),
            lk,
          ))

    born :
        (g : ℕ) → s.hub ≡ some g → Life g s.ended (of_span s.span_id (rt.published ++ (h, r) ∷ []))
    born g e =
        subst (λ b. Life g b (of_span s.span_id (rt.published ++ (h, r) ∷ []))) (sym alive)
          (subst (Life g false) (sym (one g e)) (started m))
      where
        one :
            (g : ℕ)
            → s.hub ≡ some g
            → of_span s.span_id (rt.published ++ (h, r) ∷ []) ≡ (g, span_started m) ∷ []
        one g e =
            of_span-own s.span_id h r rt.published own
            ∙ ap (λ ks. ks ++ (h, r.kind) ∷ [])
                (ap (λ z. of_span z rt.published) is_next
                  ∙ v.unread rt.ids_read (omega arith) (omega (arith, l, some_used)))
            ∙ ap₂ (λ x k. (x, k) ∷ []) (some-injective h g (sym q ∙ e)) kind

    pub start-Lives : Lives id bound (record rt {
      spans = put_span rt.next s rt.spans;
      next = suc rt.next;
      ids_read = rt.ids_read + used;
      clock_read = n;
      published = rt.published ++ (h, r) ∷ [];
    })
    start-Lives = record {
      fresh = new-fresh;
      life = λ b t g y e. elim (put_span-cases rt v rt.next b s t y) [
        | inl (_, x) ↦
            subst (λ z. Life g z.ended (of_span z.span_id (rt.published ++ (h, r) ∷ []))) (sym x)
              (born g (sym (ap (λ z. z.hub) x) ∙ e))
        | inr (_, y') ↦
            subst (Life g t.ended)
              (sym (
                of_span-other t.span_id h r rt.published (λ w. not_older b t g y' e (sym own ∙ w))))
              (v.life b t g y' e)
      ];
      named = λ b t g y e. elim (put_span-cases rt v rt.next b s t y) [
        | inl (_, x) ↦ (rt.ids_read, omega (arith, some_used), ap (λ z. z.span_id) x ∙ is_next)
        | inr (_, y') ↦ (let (k, lk, ek) = v.named b t g y' e in (k, omega (arith, lk), ek))
      ];
      single = λ b c t w g g' y z e f i. elim (put_span-cases rt v rt.next b s t y) [
        | inl (p, x) ↦ elim (put_span-cases rt v rt.next c s w z) [
          | inl (p', _) ↦ p ∙ sym p'
          | inr (_, z') ↦ absurd (not_older c w g' z' f (sym (ap (λ z. z.span_id) x) ∙ i))
        ]
        | inr (_, y') ↦ elim (put_span-cases rt v rt.next c s w z) [
          | inl (_, x) ↦ absurd (not_older b t g y' e (sym (ap (λ z. z.span_id) x) ∙ sym i))
          | inr (_, z') ↦ v.single b c t w g g' y' z' e f i
        ]
      ];
      unread = λ k lo hi.
          of_span-other (id k) h r rt.published (λ e. later k lo hi (sym is_next ∙ sym own ∙ e))
          ∙ v.unread k (omega (arith, lo)) hi;
    }
      where
        later : (k : ℕ) → rt.ids_read + used ≤ k → k < bound → id rt.ids_read ≢ id k
        later k lo hi e =
            absurd
              (omega (arith, u rt.ids_read k (omega (arith, l, some_used)) hi e, lo, some_used))
