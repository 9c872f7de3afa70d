-- ===== src/Span/Changes.antt =====
-- What the methods of sap.go do to the lives of the spans.
use sap.Base.{
  ℕ, ◌≤◌, ◌<◌, ◌≡◌, refl, sym, ap, subst, ◌∙◌, ◌≢◌, ◌⊎◌, inl, inr, String, some, List, [], ◌∷◌,
  ◌++◌, false, if_pos, if_neg, ℕ_discrete, arith,
}
use mathlib.Core.Option.{some-injective, some-ne-none}
use sap.Message.{Record, Kind}
use sap.Span.{Span, Runtime, put_span}
use sap.Span.Life.{Life, Lives, Unique, of_span, span_id_of, of_span-own, of_span-other}

module _ {T : Type 0} {id : ℕ → String} {bound : ℕ} (rt : Runtime T) (v : Lives id bound rt) where
  pub put_span-cases :
      (a b : ℕ) (s t : Span)
      → put_span a s rt.spans b ≡ some t
      → ((b ≡ a) × (t ≡ s)) ⊎ ((b ≢ a) × (rt.spans b ≡ some t))
  unfolding put_span
  put_span-cases a b s t e = elim (ℕ_discrete b a) [
    | yes q ↦ inl (q, some-injective t s (sym e ∙ if_pos (ℕ_discrete b a) q _ _))
    | no n ↦ inr (n, sym (if_neg (ℕ_discrete b a) n _ _) ∙ e)
  ]

  -- The span at `a` publishes a record about itself and becomes `s'`.
  module _ (a : ℕ) (s s' : Span) (h : ℕ) (r : Record T) (n : ℕ) (p : rt.spans a ≡ some s)
      (q : s.hub ≡ some h) (same_hub : s'.hub ≡ s.hub) (same_id : s'.span_id ≡ s.span_id)
      (own : span_id_of r.kind ≡ s.span_id) where
    origin :
        (b : ℕ) (t : Span)
        → put_span a s' rt.spans b ≡ some t
        → (t₀ : Span) × (rt.spans b ≡ some t₀) × (t.hub ≡ t₀.hub) × (t.span_id ≡ t₀.span_id)
    origin b t e = elim (put_span-cases a b s' t e) [
      | inl (w, x) ↦
          (s, ap rt.spans w ∙ p, ap (λ y. y.hub) x ∙ same_hub, ap (λ y. y.span_id) x ∙ same_id)
      | inr (_, y) ↦ (t, y, refl, refl)
    ]

    own-Life :
        (g : ℕ)
        → s'.hub ≡ some g
        → Life h s'.ended (of_span s.span_id rt.published ++ (h, r.kind) ∷ [])
        → Life g s'.ended (of_span s'.span_id (rt.published ++ (h, r) ∷ []))
    own-Life g e l =
        subst (λ z. Life g s'.ended (of_span z (rt.published ++ (h, r) ∷ []))) (sym same_id)
          (subst (Life g s'.ended) (sym (of_span-own s.span_id h r rt.published own)) (
            subst (λ z. Life z s'.ended (of_span s.span_id rt.published ++ (h, r.kind) ∷ []))
              (some-injective h g (sym q ∙ sym same_hub ∙ e)) l))

    other-Life :
        (b : ℕ) (t : Span) (g : ℕ)
        → b ≢ a
        → rt.spans b ≡ some t
        → t.hub ≡ some g
        → Life g t.ended (of_span t.span_id (rt.published ++ (h, r) ∷ []))
    other-Life b t g n y e =
        subst (Life g t.ended)
          (sym (
            of_span-other t.span_id h r rt.published
              (λ w. n (v.single b a t s g h y p e q (sym w ∙ own)))))
          (v.life b t g y e)

    pub publish-Lives :
        (Life h s.ended (of_span s.span_id rt.published)
          → Life h s'.ended (of_span s.span_id rt.published ++ (h, r.kind) ∷ []))
        → Unique id bound
        → rt.ids_read ≤ bound
        → Lives id bound (record rt {
          spans = put_span a s' rt.spans;
          clock_read = n;
          published = rt.published ++ (h, r) ∷ [];
        })
    unfolding put_span
    publish-Lives grow u l = record {
      fresh = λ b le. if_neg (ℕ_discrete b a) (not_a b le) _ _ ∙ v.fresh b le;
      life = λ b t g y e. elim (put_span-cases a b s' t y) [
        | inl (_, x) ↦
            subst (λ z. Life g z.ended (of_span z.span_id (rt.published ++ (h, r) ∷ []))) (sym x)
              (own-Life g (sym (ap (λ z. z.hub) x) ∙ e) (grow (v.life a s h p q)))
        | inr (m, y') ↦ other-Life b t g m y' e
      ];
      named = λ b t g y e.
          let (t₀, y', eh, ei) = origin b t y in
          let (k, lk, e') = v.named b t₀ g y' (sym eh ∙ e) in (k, lk, ei ∙ e');
      single = λ b c t w g g' y z e f i.
          let (t₀, y', eh, ei) = origin b t y in
          let (w₀, z', fh, fi) = origin c w z in
          v.single b c t₀ w₀ g g' y' z' (sym eh ∙ e) (sym fh ∙ f) (sym ei ∙ i ∙ fi);
      unread = λ k lo hi.
          of_span-other (id k) h r rt.published (λ e. later k lo hi (sym own ∙ e))
          ∙ v.unread k lo hi;
    }
      where
        not_a : (b : ℕ) → rt.next ≤ b → b ≢ a
        not_a b le e = some-ne-none s (sym p ∙ ap rt.spans (sym e) ∙ v.fresh b le)

        later : (k : ℕ) → rt.ids_read ≤ k → k < bound → s.span_id ≢ id k
        later k lo hi e =
            let (j, lj, ej) = v.named a s h p q in
            absurd (omega (arith, u j k (omega (arith, lj, l)) hi (sym ej ∙ e), lj, lo))

  put_span-same :
      (a : ℕ) (s : Span) (b : ℕ) → rt.spans a ≡ some s → put_span a s rt.spans b ≡ rt.spans b
  unfolding put_span
  put_span-same a s b p = ground (arith, p)

  -- A span that has not ended publishes a record about itself.
  pub publish_alive-Lives :
      (a : ℕ) (s : Span) (h : ℕ) (r : Record T) (n : ℕ)
      → rt.spans a ≡ some s
      → s.hub ≡ some h
      → span_id_of r.kind ≡ s.span_id
      → s.ended ≡ false
      → ((ks : List (ℕ × Kind T)) → Life h false ks → Life h false (ks ++ (h, r.kind) ∷ []))
      → Unique id bound
      → rt.ids_read ≤ bound
      → Lives id bound (record rt { clock_read = n; published = rt.published ++ (h, r) ∷ [] })
  publish_alive-Lives a s h r n p q own alive grow u l =
      subst
        (λ m.
          Lives id bound
            (record rt { spans = m; clock_read = n; published = rt.published ++ (h, r) ∷ [] }))
        (λ i b. put_span-same a s b p i)
        (publish-Lives a s s h r n p q refl refl own
          (λ l.
            subst (λ b. Life h b (of_span s.span_id rt.published ++ (h, r.kind) ∷ [])) (sym alive)
              (grow _ (subst (λ b. Life h b (of_span s.span_id rt.published)) alive l)))
          u l)
