-- ===== src/Webhook.antt =====
-- pkg/webhook/match.go and router.go: which route answers an admission request. `R` is the response
-- that a handler fills.
pub mod Laws
mod Tests
use baaah.Prelude.{
  ℕ, Bool, true, false, ◌&&◌, Option, none, some, Str, str, List, [], ◌∷◌, ◌++◌, if◌then◌else◌,
  ◌==◌, list_eq, nat_eq, bool_eq,
}
use baaah.Objects.{Gvk}
use baaah.Errors.{Error, plain}

-- metav1.GroupVersionResource
pub record Gvr : Type 0 where
  pub group : Str
  pub version : Str
  pub resource : Str

-- the fields of v1.AdmissionRequest that are matched
pub record AdmissionRequest : Type 0 where
  pub request_kind : Option Gvk
  pub request_resource : Option Gvr
  pub sub_resource : Str
  pub name : Str
  pub namespace : Str
  pub operation : Str
  pub dry_run : Option Bool

-- Handler: the error that it returns and the response that it leaves
abbrev pub Handler : Type 0 → Type 0
Handler R = R → AdmissionRequest → Option Error × R

pub record RouteMatch (R : Type 0) : Type 0 where
  pub handler : Option (Handler R)
  pub kind : Str
  pub resource : Str
  pub version : Str
  pub sub_resource : Str
  pub dry_run : Option Bool
  pub group : Str
  pub name : Str
  pub namespace : Str
  pub operation : Str

-- &RouteMatch{}
abbrev pub new_match : {R : Type 0} → RouteMatch R
new_match = record {
  handler = none;
  kind = [];
  resource = [];
  version = [];
  sub_resource = [];
  dry_run = none;
  group = [];
  name = [];
  namespace = [];
  operation = [];
}

-- The variables of `matches`. A resource is read after the kind, and its group and version count.
abbrev pub group_of : Option Gvk → Option Gvr → Str
group_of k (some r) = r.group
group_of (some k) none = k.group
group_of none none = []

abbrev pub version_of : Option Gvk → Option Gvr → Str
version_of k (some r) = r.version
version_of (some k) none = k.version
version_of none none = []

abbrev pub kind_of : Option Gvk → Str
kind_of none = []
kind_of (some k) = k.kind

abbrev pub resource_of : Option Gvr → Str
resource_of none = []
resource_of (some r) = r.resource

unfoldable pub check_string : Str → Str → Bool
check_string expected actual = if expected == [] then true else expected == actual

unfoldable pub check_bool : Option Bool → Option Bool → Bool
check_bool none actual = true
check_bool (some e) none = false
check_bool (some e) (some a) = e == a

module _ {R : Type 0} where
  unfoldable pub matches : RouteMatch R → AdmissionRequest → Bool
  unfolding check_string check_bool
  matches r req =
      check_string r.kind (kind_of req.request_kind)
      && check_string r.resource (resource_of req.request_resource)
      && check_string r.sub_resource req.sub_resource
      && check_string r.version (version_of req.request_kind req.request_resource)
      && check_string r.group (group_of req.request_kind req.request_resource)
      && check_string r.name req.name
      && check_string r.namespace req.namespace
      && check_string r.operation req.operation
      && check_bool r.dry_run req.dry_run

  -- RouteMatch.admit
  unfoldable pub admit_match : RouteMatch R → R → AdmissionRequest → Option Error × R
  admit_match m resp req = elim m.handler [ none ↦ (none, resp) | some h ↦ h resp req ]

  -- Router.admit; `no_route` is the text of the error
  unfoldable pub admit :
      (AdmissionRequest → Str) → List (RouteMatch R) → R → AdmissionRequest → Option Error × R
  unfolding matches admit_match
  admit no_route [] resp req = (some (plain (no_route req)), resp)
  admit no_route (m ∷ ms) resp req =
      let rest = admit no_route ms resp req in
      if matches m req then admit_match m resp req else rest

-- resourceString
unfoldable pub resource_string : Str → Str → Str
resource_string ns name = if ns == [] then name else ns ++ b'/' ∷ name
