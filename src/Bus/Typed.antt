-- ===== src/Bus/Typed.antt =====
-- The types of the topics of DataBus.h.
pub mod Registered
use async_http.Prelude.{
  ℕ, Bool, true, false, not, Option, none, some, [], ◌∷◌, ◌++◌, ◌≡◌, inl, inr, refl, sym, ap, ◌∙◌,
  subst, ◌==◌, Bool-cases, Option-cases, if_cases, option_cases, All-append, arith,
}
use async_http.Prelude.Strings.{
  String, Dict, same_string, find, assign, find-assign, same_string→≡, same_string_refl,
}
use async_http.Prelude.Erased.{Erased, AreSafe}
use async_http.Remote.{Serializer}
use async_http.Bus.{LvcEntry, Bus, note_cast}
use async_http.Bus.Registry.{
  check_or_establish_type, report_mismatch, get_or_create_signal, register_serializer,
  register_stringifier,
}
use async_http.Bus.Tables.{Tables, tables, report_mismatch-tables}

-- Whatever a table holds for a topic was made as the topic's type, and so far all casts are safe.
pub record IsTyped {V : Type 0} (t : Tables V) : Type 0 where
  pub signals :
      (topic : String) (s : Erased ℕ)
      → find topic t.signals ≡ some s
      → find topic t.type_indices ≡ some s.made_as
  pub serializers :
      (topic : String) (z : Erased (Serializer V))
      → find topic t.serializers ≡ some z
      → find topic t.type_indices ≡ some z.made_as
  pub last_values :
      (topic : String) (e : LvcEntry V)
      → find topic t.last_values ≡ some e
      → find topic t.type_indices ≡ some e.value.made_as
  pub stringifiers :
      (topic : String) (f : Erased (V → String))
      → find topic t.stringifiers ≡ some f
      → find topic t.type_indices ≡ some f.made_as
  pub safe : AreSafe t.casts

pub some_injective : (a b : ℕ) → some a ≡ some b → a ≡ b
some_injective a b h = ground (arith, h)

pub noted-IsTyped :
    {V : Type 0} (wanted actual : ℕ) (t : Tables V)
    → wanted ≡ actual
    → IsTyped t
    → IsTyped (record t { casts = t.casts ++ (record { wanted = wanted; actual = actual } ∷ []) })
noted-IsTyped wanted actual t e v = record {
  signals = v.signals;
  serializers = v.serializers;
  last_values = v.last_values;
  stringifiers = v.stringifiers;
  safe = All-append (λ c. c.wanted ≡ c.actual) t.casts _ v.safe (e, tt);
}

find-same : (q topic : String) (m : Dict ℕ) → same_string q topic ≡ true → find q m ≡ find topic m
find-same q topic m h = ap (λ x. find x m) (same_string→≡ q topic h)

-- A new type leaves the ones that are there.
grown :
    (q topic : String) (type x : ℕ) (m : Dict ℕ)
    → find topic m ≡ none
    → find q m ≡ some x
    → find q (assign topic type m) ≡ some x
grown q topic type x m absent h =
    ground (arith, find-assign topic q type m, find-same q topic m, absent, h)

pub established-IsTyped :
    {V : Type 0} (topic : String) (type : ℕ) (t : Tables V)
    → find topic t.type_indices ≡ none
    → IsTyped t
    → IsTyped (record t { type_indices = assign topic type t.type_indices })
established-IsTyped topic type t absent v = record {
  signals = λ q s h. grown q topic type s.made_as t.type_indices absent (v.signals q s h);
  serializers = λ q z h. grown q topic type z.made_as t.type_indices absent (v.serializers q z h);
  last_values =
      λ q e h. grown q topic type e.value.made_as t.type_indices absent (v.last_values q e h);
  stringifiers = λ q f h. grown q topic type f.made_as t.type_indices absent (v.stringifiers q f h);
  safe = v.safe;
}

-- An object of the topic's type may go into a table.
pub stored :
    {A : Type 0} (made_as : A → ℕ) (topic : String) (a : A) (m : Dict A) (types : Dict ℕ)
    → find topic types ≡ some (made_as a)
    → ((q : String) (x : A) → find q m ≡ some x → find q types ≡ some (made_as x))
    → (q : String) (x : A) → find q (assign topic a m) ≡ some x
    → find q types ≡ some (made_as x)
stored made_as topic a m types here h q x e = elim (Bool-cases (same_string q topic)) [
  | inl same ↦
      let f : some a ≡ some x = ground (arith, find-assign topic q a m, same, e) in
      ground (arith, f, find-same q topic types same, here)
  | inr other ↦ ground (arith, find-assign topic q a m, other, h q x, e)
]

pub stored_value-IsTyped :
    {V : Type 0} (topic : String) (e : LvcEntry V) (t : Tables V)
    → find topic t.type_indices ≡ some e.value.made_as
    → IsTyped t
    → IsTyped (record t { last_values = assign topic e t.last_values })
stored_value-IsTyped topic e t here v = record {
  signals = v.signals;
  serializers = v.serializers;
  last_values =
      stored (λ a. a.value.made_as) topic e t.last_values t.type_indices here v.last_values;
  stringifiers = v.stringifiers;
  safe = v.safe;
}
