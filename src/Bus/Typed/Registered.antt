-- ===== src/Bus/Typed/Registered.antt =====
-- The registry of DataBus.h keeps the types of the objects in the tables.
use async_http.Prelude.{
  ℕ, Bool, false, not, Option, some, ◌≡◌, inl, inr, refl, sym, ap, ◌∙◌, subst, ◌==◌, Option-cases,
  if_cases, option_cases, arith,
}
use async_http.Prelude.Strings.{String, find, assign, find-assign, same_string_refl}
use async_http.Prelude.Erased.{Erased}
use async_http.Remote.{Serializer}
use async_http.Bus.{Bus, note_cast}
use async_http.Bus.Registry.{
  check_or_establish_type, report_mismatch, get_or_create_signal, register_serializer,
  register_stringifier,
}
use async_http.Bus.Tables.{tables, report_mismatch-tables}
use async_http.Bus.Typed.{IsTyped, some_injective, noted-IsTyped, established-IsTyped, stored}

module _ {V W : Type 0} where
  -- The types are checked, and the topic has the type if they agree.
  pub record IsChecked (topic : String) (type : ℕ) (b : Bus V W) (x : Bool × Bus V W) : Type 0 where
    pub typed : IsTyped (tables x.1)
    pub agreed : x.0 ≡ false → find topic x.1.type_indices ≡ some type

  pub check_or_establish_type-IsChecked :
      (topic : String) (type : ℕ) (b : Bus V W)
      → IsTyped (tables b)
      → IsChecked topic type b (check_or_establish_type topic type b)
  unfolding check_or_establish_type
  check_or_establish_type-IsChecked topic type b v =
      elim (Option-cases (find topic b.type_indices)) [
        | inr t ↦
            let e : check_or_establish_type topic type b ≡ (not (t.0 == type), b) =
              ground (arith, t.1) in
            subst (IsChecked topic type b) (sym e)
              (record { typed = v; agreed = λ h. ground (arith, t.1, h) })
        | inl absent ↦
            let c : Bus V W = record b { type_indices = assign topic type b.type_indices } in
            let e : check_or_establish_type topic type b ≡ (false, c) = ground (arith, absent) in
            subst (IsChecked topic type b) (sym e) (record {
              typed = established-IsTyped topic type (tables b) absent v;
              agreed = λ h.
                  ground
                    (arith, find-assign topic topic type b.type_indices, same_string_refl topic);
            })
      ]

  pub get_or_create_signal-IsTyped :
      (topic : String) (type : ℕ) (b : Bus V W)
      → IsTyped (tables b)
      → IsTyped (tables (get_or_create_signal topic type b).1)
  unfolding get_or_create_signal
  get_or_create_signal-IsTyped topic type b v =
      let x = check_or_establish_type topic type b in
      let c = check_or_establish_type-IsChecked topic type b v in
      let keeps : Option ℕ × Bus V W → Type 0 = λ y. IsTyped (tables y.1) in
      if_cases keeps x.0 _ _ (λ other. c.typed)
        (λ same.
          option_cases keeps (find topic x.1.signals) _ _
            (λ absent.
              let made : Erased ℕ = record { made_as = type; object = x.1.next_object } in
              noted-IsTyped type type
                (record (tables x.1) { signals = assign topic made x.1.signals }) refl
                (record {
                  signals =
                      stored (λ a. a.made_as) topic made x.1.signals x.1.type_indices
                        (c.agreed same) c.typed.signals;
                  serializers = c.typed.serializers;
                  last_values = c.typed.last_values;
                  stringifiers = c.typed.stringifiers;
                  safe = c.typed.safe;
                }))
            (λ s found.
              noted-IsTyped type s.made_as (tables x.1)
                (some_injective type s.made_as
                  (sym (c.agreed same) ∙ c.typed.signals topic s found))
                c.typed))

  -- A signal is given only for the topic's type.
  pub get_or_create_signal-here :
      (topic : String) (type object : ℕ) (b : Bus V W)
      → IsTyped (tables b)
      → (get_or_create_signal topic type b).0 ≡ some object
      → find topic (get_or_create_signal topic type b).1.type_indices ≡ some type
  unfolding get_or_create_signal
  get_or_create_signal-here topic type object b v =
      let x = check_or_establish_type topic type b in
      let c = check_or_establish_type-IsChecked topic type b v in
      let keeps : Option ℕ × Bus V W → Type 0 =
        λ y. y.0 ≡ some object → find topic y.1.type_indices ≡ some type in
      if_cases keeps x.0 _ _ (λ other e. absurd (let f : ⊥ = cc in f))
        (λ same.
          option_cases keeps (find topic x.1.signals) _ _ (λ absent e. c.agreed same)
            (λ s found e. c.agreed same))

  pub mismatch-IsTyped :
      (topic : String) (b : Bus V W)
      → IsTyped (tables b)
      → IsTyped (tables (report_mismatch topic b))
  mismatch-IsTyped topic b v = subst IsTyped (sym (report_mismatch-tables topic b)) v

  pub register_serializer-IsTyped :
      (topic : String) (type : ℕ) (z : Serializer V) (b : Bus V W)
      → IsTyped (tables b)
      → IsTyped (tables (register_serializer topic type z b))
  unfolding register_serializer
  register_serializer-IsTyped topic type z b v =
      let x = check_or_establish_type topic type b in
      let c = check_or_establish_type-IsChecked topic type b v in
      let keeps : Bus V W → Type 0 = λ y. IsTyped (tables y) in
      if_cases keeps x.0 _ _ (λ other. mismatch-IsTyped topic x.1 c.typed)
        (λ same. record {
          signals = c.typed.signals;
          serializers =
              stored (λ a. a.made_as) topic (record { made_as = type; object = z }) x.1.serializers
                x.1.type_indices (c.agreed same) c.typed.serializers;
          last_values = c.typed.last_values;
          stringifiers = c.typed.stringifiers;
          safe = c.typed.safe;
        })

  pub register_stringifier-IsTyped :
      (topic : String) (type : ℕ) (f : V → String) (b : Bus V W)
      → IsTyped (tables b)
      → IsTyped (tables (register_stringifier topic type f b))
  unfolding register_stringifier
  register_stringifier-IsTyped topic type f b v =
      let x = check_or_establish_type topic type b in
      let c = check_or_establish_type-IsChecked topic type b v in
      let keeps : Bus V W → Type 0 = λ y. IsTyped (tables y) in
      if_cases keeps x.0 _ _ (λ other. mismatch-IsTyped topic x.1 c.typed)
        (λ same. record {
          signals = c.typed.signals;
          serializers = c.typed.serializers;
          last_values = c.typed.last_values;
          stringifiers =
              stored (λ a. a.made_as) topic (record { made_as = type; object = f }) x.1.stringifiers
                x.1.type_indices (c.agreed same) c.typed.stringifiers;
          safe = c.typed.safe;
        })

  -- The topic has the type, and its tables are typed.
  pub record IsOf (topic : String) (type : ℕ) (b : Bus V W) : Type 0 where
    pub typed : IsTyped (tables b)
    pub here : find topic b.type_indices ≡ some type

  pub same-IsOf :
      (topic : String) (type : ℕ) (b c : Bus V W)
      → tables c ≡ tables b
      → IsOf topic type b
      → IsOf topic type c
  same-IsOf topic type b c e v = record {
    typed = subst IsTyped (sym e) v.typed;
    here = ap (λ t. find topic t.type_indices) e ∙ v.here;
  }

  -- A cast of an object that the topic holds.
  pub cast-IsOf :
      (topic : String) (type actual : ℕ) (b : Bus V W)
      → IsOf topic type b
      → find topic b.type_indices ≡ some actual
      → IsOf topic type (note_cast type actual b)
  cast-IsOf topic type actual b v found = record {
    typed =
        noted-IsTyped type actual (tables b) (some_injective type actual (sym v.here ∙ found))
          v.typed;
    here = v.here;
  }
