-- ===== src/Bus/Cached.antt =====
-- The last values of DataBus.h against what they mean for one topic: its type, whether last values are
-- kept for it, and the last one that was published since.
pub mod Published
use async_http.Prelude.{
  ℕ, Bool, true, false, ◌||◌, not, Option, none, some, List, [], ◌∷◌, ◌≡◌, inl, inr, refl, sym, ap,
  ◌∙◌, ◌==◌, Bool-cases, Option-cases, if◌then◌else◌, if_both, if_cases, option_cases, arith,
}
use async_http.Prelude.Strings.{String, Dict, same_string, same_string→≡, find, find-assign}
use async_http.Http.{Bytes}
use async_http.Reliable.Retry.{DmqHeader}
use async_http.Signals.{emit}
use async_http.Remote.{Serializer}
use async_http.Bus.{LvcEntry, Bus, note_cast}
use async_http.Bus.Registry.{check_or_establish_type}
use async_http.Bus.Publish.{
  update_last_value, tell_monitors, dispatch_monitor, publish_local, find_serializer,
  publish_remote, distribute, publish,
}
use async_http.Bus.Slots.{snapshot}
use async_http.Bus.Tables.{Tables, tables, call_slots-tables, report_mismatch-tables}
use async_http.Bus.Safe.{publish_remote-tables}

-- What is kept for a topic.
pub record Topic (V : Type 0) : Type 0 where
  pub type : Option ℕ
  pub cached : Bool
  pub last : Option (V × ℕ)

abbrev pub flag : Option Bool → Bool
flag none = false
flag (some enabled) = enabled

abbrev pub value_of : {V : Type 0} → Option (LvcEntry V) → Option (V × ℕ)
value_of none = none
value_of (some e) = some (e.value.object, e.timestamp)

-- Whether a type may be used for a topic.
abbrev pub agrees : ℕ → Option ℕ → Bool
agrees type none = true
agrees type (some t) = t == type

-- The first type stays.
abbrev pub established : ℕ → Option ℕ → Option ℕ
established type none = some type
established type (some t) = some t

pub find-equal :
    {A : Type 0} (topic q : String) (m : Dict A)
    → same_string topic q ≡ true
    → find q m ≡ find topic m
find-equal topic q m h = ap (λ x. find x m) (sym (same_string→≡ topic q h))

module _ {V : Type 0} where
  unfoldable pub view : String → Tables V → Topic V
  unfolding find
  view topic t = record {
    type = find topic t.type_indices;
    cached = flag (find topic t.topic_qos);
    last = value_of (find topic t.last_values);
  }

  abbrev pub note_type : ℕ → Topic V → Topic V
  note_type type t = record t { type = established type t.type }

  -- A message of the right type is the last value, if last values are kept.
  abbrev pub note_message : ℕ → V → ℕ → Topic V → Topic V
  note_message type v now t =
      if agrees type t.type
      then record {
        type = some type;
        cached = t.cached;
        last = if t.cached then some (v, now) else t.last;
      }
      else t
