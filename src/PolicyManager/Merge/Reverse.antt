-- ===== src/PolicyManager/Merge/Reverse.antt =====
-- An immutable property keeps its value in a merge with a property of base precedence, which is done
-- the other way round, and so in every merge.
use neat.Base.{
  same_string, ◌≡◌, refl, ap, ap₂, sym, ◌∙◌, true, false, Bool-cases, ◌⊎◌, inl, inr, none, some,
  Option-cases, arith, ◌==◌,
}
use neat.PolicyManager.Node.{int_place}
use neat.PolicyManager.Merge.{
  Jansson, value_key, score_key, evaluated_key, precedence_key, int_at, int_add, base, immutable,
  larger, int_of, int_field, add_scores, take_value, merge_do_update_property,
  merge_update_property,
}
use neat.PolicyManager.Merge.Laws.{IsJansson}
use neat.PolicyManager.Merge.Kept.{
  Immutable, IsBounded, int_field_other, merge_do_update_property-Immutable,
}

module _ (J : Jansson) (laws : IsJansson J) where
  -- What a copy of a property of base precedence must be for the update by it to keep a value.
  record Carries (v copy : J.Json) : Type 0 where
    precedence_obj : J.Json
    has_precedence : J.object_get copy precedence_key ≡ some precedence_obj
    is_immutable : int_place (J.integer_value precedence_obj) ≡ immutable
    none_or_same :
        (J.object_get copy value_key ≡ none)
        ⊎ ((w : J.Json) × (J.object_get copy value_key ≡ some w) × (J.equal w v ≡ true))

  update-Immutable :
      (v a copy : J.Json)
      → Immutable J laws v a
      → Carries v copy
      → Immutable J laws v (J.object_update a copy)
  update-Immutable v a copy m c =
      let o = laws.is_object-object_update a copy ∙ m.is_object in
      let p =
        ap (int_of J) (laws.get-update_found a copy precedence_key _ m.is_object c.has_precedence)
        ∙ c.is_immutable in
      elim c.none_or_same [
        | inl e ↦ record {
          is_object = o;
          precedence = p;
          value = m.value;
          has_value = laws.get-update_missing a copy value_key e ∙ m.has_value;
          same_value = m.same_value;
        }
        | inr (w, e, q) ↦ record {
          is_object = o;
          precedence = p;
          value = w;
          has_value = laws.get-update_found a copy value_key w m.is_object e;
          same_value = q;
        }
      ]

  -- The precedence attribute of an immutable property is there.
  immutable_obj :
      (j : J.Json)
      → int_field J j precedence_key ≡ immutable
      → (p : J.Json) × (J.object_get j precedence_key ≡ some p)
        × (int_place (J.integer_value p) ≡ immutable)
  immutable_obj j e = elim (Option-cases (J.object_get j precedence_key)) [
    | inl q ↦ absurd (let z = sym e ∙ ap (int_of J) q in omega (arith, z))
    | inr (p, q) ↦ (p, q, sym (ap (int_of J) q) ∙ e)
  ]

  add_scores-Carries :
      (v a b : J.Json)
      → Immutable J laws v a
      → J.is_object b ≡ true
      → int_field J b precedence_key ≡ base
      → (J.object_get b value_key ≡ none)
        ⊎ ((w : J.Json) × (J.object_get b value_key ≡ some w) × (J.equal w v ≡ true))
      → Carries v (add_scores J b a)
  unfolding same_string
  add_scores-Carries v a b m o z s =
      let x = J.integer (int_at (int_add (int_field J b score_key) (int_field J a score_key))) in
      let scored = J.object_set b score_key x in
      let ob = laws.is_object-object_set b score_key x ∙ o in
      let e : larger (int_field J scored precedence_key) (int_field J a precedence_key)
          ≡ immutable =
        ap₂ (λ p q. larger p q) (int_field_other J laws b score_key precedence_key x refl ∙ z)
          m.precedence in
      let same : J.object_get (add_scores J b a) value_key ≡ J.object_get b value_key =
        laws.get-set_other _ precedence_key value_key _ refl
        ∙ laws.get-set_other b score_key value_key x refl in
      record {
        precedence_obj = _;
        has_precedence = laws.get-set_self scored precedence_key _ ob;
        is_immutable =
            ap (λ p. int_place (J.integer_value (J.integer (int_at p)))) e
            ∙ laws.int_place-integer immutable (omega arith);
        none_or_same = elim s [ inl n ↦ inl (same ∙ n) | inr (w, n, q) ↦ inr (w, same ∙ n, q) ];
      }

  take_value-Carries :
      (v a b : J.Json) (m : Immutable J laws v a)
      → J.is_object b ≡ true
      → int_field J b precedence_key ≡ base
      → Carries v (take_value J b a m.value)
  unfolding same_string
  take_value-Carries v a b m o z =
      let (p, e, i) = immutable_obj a m.precedence in
      let set = J.object_set b value_key m.value in
      let c : Carries v (J.object_set set precedence_key p) = record {
        precedence_obj = p;
        has_precedence =
            laws.get-set_self set precedence_key p
              (laws.is_object-object_set b value_key m.value ∙ o);
        is_immutable = i;
        none_or_same = inr (
          m.value,
          laws.get-set_other set precedence_key value_key p refl
              ∙ laws.get-set_self b value_key m.value o,
          m.same_value,
        );
      } in
      simp (z, e, i) c

  merge_do_update_property-Carries :
      (v a b : J.Json)
      → Immutable J laws v a
      → J.is_object b ≡ true
      → int_field J b precedence_key ≡ base
      → Carries v (merge_do_update_property J b a false)
  unfolding merge_do_update_property same_string
  merge_do_update_property-Carries v a b m o z =
      let b1 = J.object_set b evaluated_key (J.boolean false) in
      let o1 = laws.is_object-object_set b evaluated_key (J.boolean false) ∙ o in
      let z1 = int_field_other J laws b evaluated_key precedence_key (J.boolean false) refl ∙ z in
      elim (Option-cases (J.object_get b1 value_key)) [
        | inl n ↦
            simp (m.has_value, n, merge_do_update_property)
              (add_scores-Carries v a b1 m o1 z1 (inl n))
        | inr (w, n) ↦ elim (Bool-cases (J.equal w m.value)) [
          | inl q ↦
              simp (m.has_value, n, q, merge_do_update_property)
                (add_scores-Carries v a b1 m o1 z1
                  (inr (w, n, laws.equal_trans w m.value v q m.same_value)))
          | inr q ↦
              simp (m.has_value, n, q, merge_do_update_property) (take_value-Carries v a b1 m o1 z1)
        ]
      ]

  -- A merge of a property of one of the three precedences into an immutable one keeps it.
  pub merge_update_property-Immutable :
      (v a b : J.Json)
      → Immutable J laws v a
      → IsBounded J laws b
      → Immutable J laws v (merge_update_property J a b)
  unfolding merge_update_property
  merge_update_property-Immutable v a b m h = elim (Option-cases (J.object_get b precedence_key)) [
    | inl e ↦ simp (e, merge_update_property) m
    | inr (p, e) ↦ elim (Bool-cases (int_place (J.integer_value p) == base)) [
      | inl q ↦
          let z : int_field J b precedence_key ≡ base = ap (int_of J) e ∙ ground (arith, q) in
          simp (e, q, merge_update_property)
            (update-Immutable v a _ m (
              merge_do_update_property-Carries v a b m
                (laws.object_get-is_object b precedence_key p e) z))
      | inr q ↦
          simp (e, q, merge_update_property) (merge_do_update_property-Immutable J laws v a b m h)
    ]
  ]
