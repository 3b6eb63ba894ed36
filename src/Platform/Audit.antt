-- ===== src/Platform/Audit.antt =====
-- The audit trail is append-only.
pub mod Events
pub mod Writes
pub mod Trail
use mathlib.Core.List.{append_assoc, append-nil}
use financial_crime_complian.Common.{
  String, List, [], ◌∷◌, ◌++◌, ◌≡◌, sym, ap, ◌∙◌, Bool, true, false, arith, ◌==◌, eq_iff, ◌⊎◌, inl,
  inr,
}
use financial_crime_complian.Common.Dict.{Dict, get_list, push, get_list-push}
use financial_crime_complian.Domain.Audit.{AuditEvent}

-- Under each aggregate the events of `d` are the first events of `e`, in their order.
abbrev pub Extends : Dict (List AuditEvent) → Dict (List AuditEvent) → Type 0
Extends d e = (id : String) → (es : List AuditEvent) × (get_list id e ≡ get_list id d ++ es)

pub Extends-refl : (d : Dict (List AuditEvent)) → Extends d d
Extends-refl d id = ([], sym (append-nil _))

pub Extends-trans : (d e f : Dict (List AuditEvent)) → Extends d e → Extends e f → Extends d f
Extends-trans d e f h k id =
    let (es, p) = h id in
    let (fs, q) = k id in (es ++ fs, q ∙ ap (λ xs. xs ++ fs) p ∙ append_assoc (get_list id d) es fs)

added : Bool → AuditEvent → List AuditEvent
added true v = v ∷ []
added false v = []

pub Extends-push :
    (k : String) (v : AuditEvent) (d : Dict (List AuditEvent)) → Extends d (push k v d)
unfolding added
Extends-push k v d id = (
  added (k == id) v,
  get_list-push k id v d ∙ ground (arith, eq_iff k id, append-nil (get_list id d)),
)

-- The log is as it was, or it has one more event.
pub OneMore : Dict (List AuditEvent) → String → AuditEvent → Dict (List AuditEvent) → Type 0
OneMore d k v e = (e ≡ d) ⊎ (e ≡ push k v d)

pub OneMore-Extends :
    (d : Dict (List AuditEvent)) (k : String) (v : AuditEvent) (e : Dict (List AuditEvent))
    → OneMore d k v e
    → Extends d e
unfolding OneMore
OneMore-Extends d k v e (inl p) = rw p (Extends-refl d)
OneMore-Extends d k v e (inr p) = rw p (Extends-push k v d)
