-- ===== src/Controller/Notify.antt =====
-- src/internal/controller/routetable.go: `notifyChanged`, which tells the status reconciler of the
-- routes whose decision a rebuild changed. Whether the channel has room for an event when it is
-- sent is given.
pub mod Reasons
pub mod Covers
use pg_k8s_proxy.Common.{
  Bytes, Option, none, some, List, [], ◌∷◌, Bool, true, false, not, ◌&&◌, ◌||◌, Assoc, lookup,
  text_eq, if◌then◌else◌,
}
use pg_k8s_proxy.Api.{NamespacedName, name_keys, name_eq}
use pg_k8s_proxy.Registry.Resolve.{ResolveError}
use pg_k8s_proxy.Registry.Errors.{error_text}
use pg_k8s_proxy.Registry.Build.{Decision, Snapshot}
use pg_k8s_proxy.Controller.Status.{Library}

unfoldable pub eq_bool : Bool → Bool → Bool
eq_bool true b = b
eq_bool false b = not b

unfoldable pub error_message : Library → Option ResolveError → Bytes
error_message lib none = []
error_message lib (some e) = error_text lib.quote lib.api_text e

unfoldable pub decision_changed : Library → Decision → Decision → Bool
decision_changed lib before now =
    if not (text_eq before.database now.database)
      || (not (eq_bool before.accepted now.accepted)
          || (not (name_eq before.conflicts_with now.conflicts_with)
              || not (text_eq before.endpoint now.endpoint)))
    then true
    else not (text_eq (error_message lib before.resolve_err) (error_message lib now.resolve_err))

-- Whether the loop goes on to `notify`.
unfoldable pub is_news : Library → Option Decision → Decision → Bool
is_news lib none now = true
is_news lib (some before) now = decision_changed lib before now

module _ (lib : Library) (has_room : NamespacedName → Bool)
    (previous : Assoc NamespacedName Decision) where
  -- The keys whose events are sent, by the loop over the current decisions.
  unfoldable pub notify_loop : Assoc NamespacedName Decision → List NamespacedName
  notify_loop [] = []
  notify_loop ((key, now) ∷ rest) =
      let sent = notify_loop rest in
      if is_news lib (lookup key previous) now && has_room key then key ∷ sent else sent

-- `notifyChanged`; without `StatusEvents` it does nothing.
unfoldable pub notify_changed :
    Library → Option (NamespacedName → Bool) → Snapshot → Snapshot → List NamespacedName
notify_changed lib none previous current = []
notify_changed lib (some has_room) previous current =
    notify_loop lib has_room previous.decisions current.decisions
