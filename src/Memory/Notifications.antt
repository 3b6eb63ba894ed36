-- ===== src/Memory/Notifications.antt =====
-- memory/repository.go: notifications and the preferences of their recipients.
use Prim.Native.Nat.{Ordering}
use Prim.Native.String.{compare}
use financial_crime_complian.Common.{
  ℕ, String, List, none, some, Bool, true, false, ltb, take, map, select,
}
use financial_crime_complian.Common.Dict.{get, put, values}
use financial_crime_complian.Common.Sort.{sort}
use financial_crime_complian.Domain.Errors.{Error}
use financial_crime_complian.Domain.Audit.{Time}
use financial_crime_complian.Domain.Notification.{Notification, NotificationPreference}
use financial_crime_complian.Effects.{Exec, ok, err}
use financial_crime_complian.Memory.{Repository}

-- items[i].CreatedAt.After(items[j].CreatedAt)
abbrev pub is_newer : Notification → Notification → Bool
is_newer a b = ltb b.created_at a.created_at

unfoldable pub list_notifications : ℕ → Exec Repository (List Notification)
unfolding sort
list_notifications limit r = (ok (take limit (sort is_newer (values r.notifications))), r)

unfoldable pub read_notification : String → String → Time → Exec Repository Notification
read_notification id actor at r = elim (get id r.notifications) [
  | none ↦ (err Error.notification_not_found, r)
  | some n ↦
      let seen : Notification = record n { read = true; read_by = actor; read_at = some at } in
      (ok seen, record r { notifications = put id seen r.notifications })
]

unfoldable pub get_notification_preference : String → Exec Repository NotificationPreference
get_notification_preference actor r = elim (get actor r.notification_preferences) [
  | none ↦ (err Error.notification_not_found, r)
  | some preference ↦ (ok preference, r)
]

unfoldable pub upsert_notification_preference :
    NotificationPreference → Exec Repository NotificationPreference
upsert_notification_preference preference r = (
  ok preference,
  record r {
    notification_preferences = put preference.actor_subject preference r.notification_preferences;
  },
)

-- < on texts
abbrev pub text_lt : String → String → Bool
text_lt a b = elim (compare a b) [ Ordering.lt ↦ true | _ ↦ false ]

unfoldable pub list_email_notification_recipients : Exec Repository (List String)
unfolding sort
list_email_notification_recipients r = (
  ok (
      sort text_lt (
        map (λ p. p.email_address)
          (select (λ p. p.email_enabled) (values r.notification_preferences)))),
  r,
)
