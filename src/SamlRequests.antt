-- ===== src/SamlRequests.antt =====
-- app/models/saml_auth_request.rb: the requests that a sign-in at an identity provider answers, each
-- of them once. The column `request_id` has a unique index. Times are seconds; the lifetime is that of
-- lib/saml_flow_cookie.rb.
pub mod Once
mod Examples
use moneygun.Base.{
  ℕ, ◌+◌, Bool, true, false, not, ◌&&◌, ◌||◌, ◌==◌, List, [], ◌∷◌, Text, text_eq, leb, keep_if,
  length, if◌then◌else◌,
}

pub record AuthRequest : Type 0 where
  pub request_id : Text
  pub connection_id : ℕ
  pub expires_at : ℕ

pub id_exists : Text → List AuthRequest → Bool
id_exists i [] = false
id_exists i (r ∷ rs) = text_eq r.request_id i || id_exists i rs

stale_of : ℕ → ℕ → AuthRequest → Bool
stale_of now connection r = r.connection_id == connection && leb r.expires_at now

-- `start`: whether the request is created, which the unique index can refuse. The stale ones are gone
-- either way.
pub start : ℕ → Text → ℕ → List AuthRequest → List AuthRequest × Bool
unfolding stale_of id_exists
start now i connection rs =
    let kept = keep_if (λ r. not (stale_of now connection r)) rs in
    if id_exists i kept then (kept, false) else (
      record { request_id = i; connection_id = connection; expires_at = now + 600 } ∷ kept,
      true,
    )

pub record Answer : Type 0 where
  pub now : ℕ
  pub request_id : Text
  pub connection_id : ℕ

pub answers : Answer → AuthRequest → Bool
answers a r =
    text_eq r.request_id a.request_id
    && (r.connection_id == a.connection_id && leb a.now r.expires_at)

is_blank : Text → Bool
is_blank [] = true
is_blank (c ∷ cs) = false

-- `consume`: `delete_all` counts the rows that it deletes.
pub consume : Answer → List AuthRequest → List AuthRequest × Bool
unfolding answers is_blank
consume a rs =
    if is_blank a.request_id
    then (rs, false)
    else (keep_if (λ r. not (answers a r)) rs, length (keep_if (answers a) rs) == 1)

-- `cleanup`.
pub cleanup : ℕ → List AuthRequest → List AuthRequest
cleanup now rs = keep_if (λ r. not (leb r.expires_at now)) rs
