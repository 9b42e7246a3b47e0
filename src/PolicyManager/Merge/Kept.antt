-- ===== src/PolicyManager/Merge/Kept.antt =====
-- An immutable property keeps its value in a merge with a property that it meets.
use neat.Base.{
  String, same_string, ℕ, ◌≤◌, ◌≡◌, refl, ap, ◌∙◌, true, false, Bool-cases, inl, inr, some,
  Option-cases, arith, leb, ◌==◌,
}
use neat.PolicyManager.Merge.{
  Jansson, value_key, score_key, evaluated_key, precedence_key, int_at, int_add, immutable, larger,
  int_of, int_field, matches, add_scores, take_value, merge_do_update_property,
}
use neat.PolicyManager.Merge.Laws.{IsJansson}

module _ (J : Jansson) (laws : IsJansson J) where
  -- An immutable property with a value that is equal to v.
  pub record Immutable (v property : J.Json) : Type 0 where
    pub is_object : J.is_object property ≡ true
    pub precedence : int_field J property precedence_key ≡ immutable
    pub value : J.Json
    pub has_value : J.object_get property value_key ≡ some value
    pub same_value : J.equal value v ≡ true

  -- A property that is not an object has no attributes; the precedence is one of the three.
  abbrev pub IsBounded : J.Json → Type 0
  IsBounded property = int_field J property precedence_key ≤ immutable

  pub int_field_other :
      (j : J.Json) (k l : String) (v : J.Json)
      → same_string k l ≡ false
      → int_field J (J.object_set j k v) l ≡ int_field J j l
  int_field_other j k l v e = ap (int_of J) (laws.get-set_other j k l v e)

  -- Another attribute is set.
  set-Immutable :
      (v property : J.Json) (k : String) (x : J.Json)
      → same_string k value_key ≡ false
      → same_string k precedence_key ≡ false
      → Immutable v property
      → Immutable v (J.object_set property k x)
  set-Immutable v property k x e f m = record {
    is_object = laws.is_object-object_set property k x ∙ m.is_object;
    precedence = int_field_other property k precedence_key x f ∙ m.precedence;
    value = m.value;
    has_value = laws.get-set_other property k value_key x e ∙ m.has_value;
    same_value = m.same_value;
  }

  larger-immutable : (p : ℕ) → p ≤ immutable → larger immutable p ≡ immutable
  larger-immutable p h = ground arith

  pub int_field-integer :
      (j : J.Json)
      → J.is_object j ≡ true
      → int_field J (J.object_set j precedence_key (J.integer (int_at immutable))) precedence_key
        ≡ immutable
  int_field-integer j o =
      ap (int_of J) (laws.get-set_self j precedence_key _ o)
      ∙ laws.int_place-integer immutable (omega arith)

  add_scores-Immutable :
      (v a b : J.Json) → Immutable v a → IsBounded b → Immutable v (add_scores J a b)
  unfolding same_string
  add_scores-Immutable v a b m h =
      let x = J.integer (int_at (int_add (int_field J a score_key) (int_field J b score_key))) in
      let n = set-Immutable v a score_key x refl refl m in
      let e : larger (int_field J (J.object_set a score_key x) precedence_key)
            (int_field J b precedence_key)
          ≡ immutable =
        ap (λ p. larger p (int_field J b precedence_key)) n.precedence ∙ larger-immutable _ h in
      let o =
        laws.is_object-object_set (J.object_set a score_key x) precedence_key _ ∙ n.is_object in
      record {
        is_object = o;
        precedence =
            ap
              (λ p.
                int_field J
                  (J.object_set (J.object_set a score_key x) precedence_key (J.integer (int_at p)))
                  precedence_key)
              e
            ∙ int_field-integer (J.object_set a score_key x) n.is_object;
        value = n.value;
        has_value = laws.get-set_other _ precedence_key value_key _ refl ∙ n.has_value;
        same_value = n.same_value;
      }

  take_value-Immutable :
      (v a b value_b : J.Json)
      → Immutable v a
      → IsBounded b
      → Immutable v (take_value J a b value_b)
  take_value-Immutable v a b value_b m h =
      elim (Bool-cases (int_field J b precedence_key == immutable)) [
        | inl e ↦ simp (m.precedence, e) m
        | inr e ↦
            let l : leb immutable (int_field J b precedence_key) ≡ false = ground (arith, e, h) in
            simp (m.precedence, e, l) m
      ]

  pub merge_do_update_property-Immutable :
      (v a b : J.Json)
      → Immutable v a
      → IsBounded b
      → Immutable v (merge_do_update_property J a b true)
  unfolding merge_do_update_property same_string
  merge_do_update_property-Immutable v a b m h =
      let n = set-Immutable v a evaluated_key (J.boolean true) refl refl m in
      elim (Option-cases (J.object_get b value_key)) [
        | inl e ↦ simp (e, merge_do_update_property) n
        | inr (value_b, e) ↦
            elim (Bool-cases (
              matches J (J.object_get (J.object_set a evaluated_key (J.boolean true)) value_key)
                value_b)) [
                  | inl q ↦ simp (e, q, merge_do_update_property) (add_scores-Immutable v _ b n h)
                  | inr q ↦
                      simp (e, q, merge_do_update_property) (take_value-Immutable v _ b value_b n h)
                ]
      ]
