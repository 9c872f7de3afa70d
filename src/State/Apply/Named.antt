-- ===== src/State/Apply/Named.antt =====
-- The records about a span that is there: what an update, an end and an event do to each object.
use sap.Base.{
  ℕ, ◌≡◌, refl, sym, ap, ◌∙◌, ◌≢◌, String, Option, none, some, ite, if_pos, if_neg, str_dec,
  ℕ_discrete, true, false, map,
}
use sap.Base.Int.{if◌then◌else◌}
use sap.Base.Text.{ite_ind, if_ind, Option-ind}
use sap.Base.Lists.{In, In-unique, map-cong_In, map-id_In}
use sap.Message.{
  Kind, not_set, span_started, span_updated, span_ended, span_event, Record, which_kind,
  get_span_started, get_span_updated, get_span_ended, get_span_event,
}
use sap.Message.Proto.{Proto}
use sap.Message.Updated
use sap.Message.Ended
use sap.Message.Events
use sap.State.Tree.{SpanFields, fields_all, read_in, write_in}
use sap.State.Tree.Nodes.{written, fields-write_all, read_in_self, read_in-In}
use sap.State.Index.{Indexed-ids}
use sap.State.Store.{Store}
use sap.State.Invariant.{Inv}
use sap.State.Apply.{
  update_open, with_attributes, with_end, with_event, apply_updated, apply_ended, apply_event,
  apply,
}

-- The effect on an object of a write to the open span with an ID.
abbrev pub revised : String → (SpanFields → SpanFields) → SpanFields → SpanFields
revised id g f = ite (str_dec f.span_id id) (if f.ended then f else g f) f

module _ {s : Store} (v : Inv s) where
  the_object :
      (f h : SpanFields)
      → In f (fields_all s.roots)
      → In h (fields_all s.roots)
      → f.span_id ≡ h.span_id
      → f ≡ h
  the_object f h i j e =
      In-unique (λ k. k.addr) f h (fields_all s.roots) v.indexed.distinct i j
        (Indexed-ids v.indexed f h i j e)

  unknown_id :
      (id : String) (g : SpanFields → SpanFields)
      → s.by_id id ≡ none
      → map (revised id g) (fields_all s.roots) ≡ fields_all s.roots
  unknown_id id g e = map-id_In (revised id g) (fields_all s.roots) λ f i.
      if_neg (str_dec f.span_id id)
        (λ q. absurd (cc (sym (v.indexed.complete f i) ∙ ap s.by_id q ∙ e))) _ _

  module _ (id : String) (g : SpanFields → SpanFields) (h : SpanFields)
      (j : In h (fields_all s.roots)) (q : h.span_id ≡ id) where
    ended_id : h.ended ≡ true → map (revised id g) (fields_all s.roots) ≡ fields_all s.roots
    ended_id c = map-id_In (revised id g) (fields_all s.roots) λ f i.
        ite_ind (λ (k : SpanFields). k ≡ f) (str_dec f.span_id id)
          (λ e.
            if_ind (λ (k : SpanFields). k ≡ f) f.ended (λ _. refl)
              (λ o.
                absurd (cc (sym c ∙ sym (ap (λ k. k.ended) (the_object f h i j (e ∙ sym q))) ∙ o))))
          (λ _. refl)

    open_id :
        h.ended ≡ false
        → map (written h.addr g) (fields_all s.roots) ≡ map (revised id g) (fields_all s.roots)
    open_id o = map-cong_In (written h.addr g) (revised id g) (fields_all s.roots) λ f i.
        elim (str_dec f.span_id id) [
          | yes e ↦
              let r : f ≡ h = the_object f h i j (e ∙ sym q) in
              if_pos (ℕ_discrete f.addr h.addr) (ap (λ k. k.addr) r) _ _
              ∙ sym (
                  if_pos (str_dec f.span_id id) e _ _
                  ∙ ap (λ b. if b then f else g f) (ap (λ k. k.ended) r ∙ o))
          | no n ↦
              if_neg (ℕ_discrete f.addr h.addr)
                (λ e. n (
                  ap (λ k. k.span_id)
                    (In-unique (λ k. k.addr) f h (fields_all s.roots) v.indexed.distinct i j e)
                  ∙ q))
                _ _
              ∙ sym (if_neg (str_dec f.span_id id) n _ _)
        ]

  abbrev Revises : String → (SpanFields → SpanFields) → Store → Type 0
  Revises id g s' = fields_all s'.roots ≡ map (revised id g) (fields_all s.roots)

  tracked_Revises :
      (id : String) (g : SpanFields → SpanFields) (a : ℕ) (h : SpanFields)
      → s.by_id id ≡ some a
      → read_in a s.roots ≡ some h
      → Revises id g (if h.ended then s else record s { roots = write_in a g s.roots })
  tracked_Revises id g a h e r =
      let (j, at) = read_in-In a s.roots h r in
      let (k, i, q, at') = v.indexed.sound id a e in
      let same : h ≡ k =
        In-unique (λ f. f.addr) h k (fields_all s.roots) v.indexed.distinct j i (at ∙ sym at') in
      let named : h.span_id ≡ id = ap (λ f. f.span_id) same ∙ q in
      if_ind (Revises id g) h.ended (λ c. sym (ended_id id g h j named c))
        (λ o.
          fields-write_all a g s.roots
          ∙ ap (λ b. map (written b g) (fields_all s.roots)) (sym at)
          ∙ open_id id g h j named o)

  reads : (id : String) (a : ℕ) → s.by_id id ≡ some a → read_in a s.roots ≢ none
  reads id a e miss =
      let (k, i, _, at) = v.indexed.sound id a e in
      absurd (
        cc (
          sym (read_in_self k s.roots i v.indexed.distinct)
          ∙ ap (λ b. read_in b s.roots) at
          ∙ miss))

  pub update_open-revised :
      (id : String) (g : SpanFields → SpanFields) → Revises id g (update_open id g s)
  unfolding update_open
  update_open-revised id g =
      Option-ind (Revises id g) (s.by_id id) (λ e. sym (unknown_id id g e))
        λ a e.
          Option-ind (Revises id g) (read_in a s.roots) (λ miss. absurd (reads id a e miss))
            λ h r. tracked_Revises id g a h e r

-- The span that a record names, and what the record does to that span while it is open.
abbrev pub target : {T : Type 0} → Kind T → String
target not_set = ""
target (span_started m) = ""
target (span_updated m) = Updated.get_span_id (some m)
target (span_ended m) = Ended.get_span_id (some m)
target (span_event m) = Events.get_span_id (some m)

abbrev pub effect : (p : Proto) → Kind p.Timestamp → SpanFields → SpanFields
effect p not_set f = f
effect p (span_started m) f = f
effect p (span_updated m) f = with_attributes p (some m) f
effect p (span_ended m) f = with_end p (some m) f
effect p (span_event m) f = with_event p (some m) f

abbrev pub IsStart : {T : Type 0} → Kind T → Type 0
IsStart (span_started m) = Unit
IsStart _ = ⊥

module _ {s : Store} (v : Inv s) (p : Proto) where
  unnamed :
      (g : SpanFields → SpanFields) → fields_all s.roots ≡ map (revised "" g) (fields_all s.roots)
  unnamed g = sym (
      map-id_In (revised "" g) (fields_all s.roots)
        (λ f i. if_neg (str_dec f.span_id "") (v.indexed.named f i) _ _))

  apply_kind-revised :
      (at : Option p.Timestamp) (k : Kind p.Timestamp)
      → ¬ IsStart k
      → fields_all (apply p (some (record { emitted_at = at; kind = k })) s).roots
        ≡ map (revised (target k) (effect p k)) (fields_all s.roots)
  unfolding apply which_kind get_span_started get_span_updated get_span_ended get_span_event
      apply_updated apply_ended apply_event
  apply_kind-revised at not_set n = unnamed (λ f. f)
  apply_kind-revised at (span_started m) n = absurd (n tt)
  apply_kind-revised at (span_updated m) n = update_open-revised v _ _
  apply_kind-revised at (span_ended m) n = update_open-revised v _ _
  apply_kind-revised at (span_event m) n = update_open-revised v _ _

  -- In a well-formed store, a record that starts no span changes at most one object: the span whose
  -- ID it names, if that is in the tree and has not ended, gets the effect of the record. All other
  -- objects are as before, and they stand in the same order; so a record about an unknown or ended
  -- span, or of no known kind, changes no object.
  pub apply-revised :
      (r : Record p.Timestamp)
      → ¬ IsStart r.kind
      → fields_all (apply p (some r) s).roots
        ≡ map (revised (target r.kind) (effect p r.kind)) (fields_all s.roots)
  apply-revised r n = apply_kind-revised r.emitted_at r.kind n
