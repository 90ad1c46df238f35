-- ===== src/Bus/Safe.antt =====
-- Publishing and subscribing in DataBus.h keep the types, and so does any series of calls.
use async_http.Prelude.{
  ℕ, Bool, false, ◌||◌, not, Option, List, [], ◌∷◌, ◌≡◌, refl, ◌∙◌, if◌then◌else◌, if_both,
  if_cases, option_cases,
}
use async_http.Prelude.Strings.{String, find}
use async_http.Http.{Bytes}
use async_http.Reliable.Retry.{DmqHeader}
use async_http.Signals.{emit}
use async_http.Remote.{err_no_serializer, Serializer}
use async_http.Bus.{Bus, note_cast}
use async_http.Bus.Registry.{check_or_establish_type}
use async_http.Bus.Slots.{snapshot}
use async_http.Bus.Publish.{
  update_last_value, tell_monitors, dispatch_monitor, publish_local, find_serializer, dispatch_all,
  publish_remote, distribute, publish,
}
use async_http.Bus.Tables.{
  tables, call_slots-tables, report_latched_error-tables, dispatch_all-tables,
}
use async_http.Bus.Typed.{IsTyped, stored_value-IsTyped}
use async_http.Bus.Typed.Registered.{
  check_or_establish_type-IsChecked, mismatch-IsTyped, IsOf, same-IsOf, cast-IsOf,
}

module _ {V W : Type 0} where
  update_last_value-IsOf :
      (topic : String) (type : ℕ) (x : V) (now : ℕ) (b : Bus V W)
      → IsOf topic type b
      → IsOf topic type (update_last_value topic type x now b)
  unfolding update_last_value
  update_last_value-IsOf topic type x now b v =
      let keeps : Bus V W → Type 0 = IsOf topic type in
      option_cases keeps (find topic b.topic_qos) _ _ (λ absent. v)
        (λ enabled _. if_both keeps (not enabled) _ _ v (
          option_cases keeps (find topic b.last_values) _ _
            (λ absent. record {
              typed = stored_value-IsTyped topic _ (tables b) v.here v.typed;
              here = v.here;
            })
            (λ entry found.
              let held = v.typed.last_values topic entry found in
              cast-IsOf topic type entry.value.made_as _
                (record {
                  typed = stored_value-IsTyped topic _ (tables b) held v.typed;
                  here = v.here;
                })
                held)))

  tell_monitors-IsOf :
      (callbacks : List ℕ) (topic : String) (type : ℕ) (x : V) (now : ℕ) (b : Bus V W)
      → IsOf topic type b
      → IsOf topic type (tell_monitors callbacks topic type x now b)
  unfolding tell_monitors
  tell_monitors-IsOf [] topic type x now b v = v
  tell_monitors-IsOf (callback ∷ callbacks) topic type x now b v =
      option_cases (IsOf topic type) (find topic b.stringifiers) _ _
        (λ absent. same-IsOf topic type b _ refl v)
        (λ f found.
          same-IsOf topic type (note_cast type f.made_as b) _ refl
            (cast-IsOf topic type f.made_as b v (v.typed.stringifiers topic f found)))

  dispatch_monitor-IsOf :
      (topic : String) (type : ℕ) (x : V) (now : ℕ) (b : Bus V W)
      → IsOf topic type b
      → IsOf topic type (dispatch_monitor topic type x now b)
  unfolding dispatch_monitor
  dispatch_monitor-IsOf topic type x now b v =
      tell_monitors-IsOf (emit b.monitor_signal) topic type x now b v

  find_serializer-IsOf :
      (topic : String) (type : ℕ) (b : Bus V W)
      → IsOf topic type b
      → IsOf topic type (find_serializer topic type b).1
  unfolding find_serializer
  find_serializer-IsOf topic type b v =
      let keeps : Option (Serializer V) × Bus V W → Type 0 = λ y. IsOf topic type y.1 in
      option_cases keeps (find topic b.serializers) _ _ (λ absent. v)
        (λ z found. cast-IsOf topic type z.made_as b v (v.typed.serializers topic z found))

  publish_local-IsOf :
      (topic : String) (type : ℕ) (x : V) (now : ℕ) (b : Bus V W)
      → IsOf topic type b
      → IsOf topic type (publish_local topic type x now b).1
  unfolding publish_local
  publish_local-IsOf topic type x now b v =
      let keeps : Bool × Bus V W → Type 0 = λ y. IsOf topic type y.1 in
      option_cases keeps (find topic b.signals) _ _ (λ absent. v)
        (λ s found.
          same-IsOf topic type (note_cast type s.made_as b) _
            (call_slots-tables now x (emit (b.objects s.object)) (note_cast type s.made_as b))
            (cast-IsOf topic type s.made_as b v (v.typed.signals topic s found)))

  module _ (show : ℕ → String) (transport : Bytes → DmqHeader → W → ℕ × W) where
    pub publish_remote-tables :
        (peers : List ℕ) (topic : String) (type : ℕ) (x : V) (z : Option (Serializer V))
        (b : Bus V W)
        → tables (publish_remote show transport peers topic type x z b).1 ≡ tables b
    unfolding publish_remote
    publish_remote-tables peers topic type x z b =
        let sent = dispatch_all show transport peers topic type x z b in
        let keeps : Bus V W → Type 0 = λ c. tables c ≡ tables b in
        let one = dispatch_all-tables show transport peers topic type x z b in
        if_both keeps sent.0 _ _
          (option_cases keeps z _ _
            (λ absent. report_latched_error-tables topic err_no_serializer sent.1 ∙ one)
            (λ s found. one))
          one

    distribute-IsOf :
        (topic : String) (type : ℕ) (x : V) (now : ℕ) (local_only : Bool) (peers : List ℕ)
        (z : Option (Serializer V)) (b : Bus V W)
        → IsOf topic type b
        → IsOf topic type (distribute show transport topic type x now local_only peers z b)
    unfolding distribute
    distribute-IsOf topic type x now local_only peers z b v =
        let monitor = dispatch_monitor topic type x now b in
        let here = publish_local topic type x now monitor in
        let there = publish_remote show transport peers topic type x z here.1 in
        let local =
          publish_local-IsOf topic type x now monitor
            (dispatch_monitor-IsOf topic type x now b v) in
        let keeps : Bool × Bus V W → Type 0 = λ y. IsOf topic type y.1 in
        let sent =
          if_both keeps local_only (false, here.1) there local
            (same-IsOf topic type here.1 there.1 (publish_remote-tables peers topic type x z here.1)
              local) in
        if_both (IsOf topic type) (here.0 || (if local_only then (false, here.1) else there).0) _ _
          sent (same-IsOf topic type (if local_only then (false, here.1) else there).1 _ refl sent)

    pub publish-IsTyped :
        (topic : String) (type : ℕ) (x : V) (now : ℕ) (local_only : Bool) (b : Bus V W)
        → IsTyped (tables b)
        → IsTyped (tables (publish show transport topic type x now local_only b))
    unfolding publish
    publish-IsTyped topic type x now local_only b v =
        let checked = check_or_establish_type topic type b in
        let c = check_or_establish_type-IsChecked topic type b v in
        let updated = update_last_value topic type x now checked.1 in
        let found = find_serializer topic type updated in
        let keeps : Bus V W → Type 0 = λ y. IsTyped (tables y) in
        if_cases keeps checked.0 _ _ (λ other. mismatch-IsTyped topic checked.1 c.typed)
          (λ same.
            (distribute-IsOf topic type x now local_only (snapshot b.roster.count 0 b.roster)
              found.0 found.1
              (find_serializer-IsOf topic type updated (
                update_last_value-IsOf topic type x now checked.1
                  (record { typed = c.typed; here = c.agreed same })))).typed)
