-- ===== src/Rpc/Client.antt =====
-- workflows/reconcile/src/rpc.ts: the client over the configured endpoints, the failover with its
-- circuit breaker, and the calls that name an endpoint. `now` is the time of the call.
pub mod Failover
use cell_flow.Prelude.{
  ℕ, ◌+◌, Bool, true, false, not, ◌||◌, List, [], ◌∷◌, Option, none, some, String, if◌then◌else◌,
  ◌==◌, string_eq, ltb, leb, any, select, length,
}
use cell_flow.Prelude.Letters.{lower_text}
use cell_flow.Json.{Json}
use cell_flow.Core.Types.{InputRef}
use cell_flow.Core.Errors.{
  ErrorCode, CellFlowError, Result, ok, err, failure, ◌>>=◌, ◌>>◌, throw_if,
}
use cell_flow.Core.Settlement.{truthy}
use cell_flow.Assertions.{RpcLiveCell}
use cell_flow.Rpc.Session.{Session, header_number}
use cell_flow.Rpc.Inspect.{InputInspection, inspect_input_out_points}
use cell_flow.Rpc.Observe.{Identity, assert_identity}

pub record EndpointFailureState : Type 0 where
  pub url : String
  pub failures : ℕ
  pub cooldown_until : ℕ

-- `endpointFailures`, a map by the URL.
abbrev pub Failures : Type 0
Failures = List EndpointFailureState

pub state_of : String → Failures → Option EndpointFailureState
state_of url [] = none
state_of url (f ∷ fs) = if f.url == url then some f else state_of url fs

abbrev cooldown : Option EndpointFailureState → ℕ
cooldown none = 0
cooldown (some f) = f.cooldown_until

abbrev failed_times : Option EndpointFailureState → ℕ
failed_times none = 0
failed_times (some f) = f.failures

unfoldable pub cooldown_of : String → Failures → ℕ
unfolding state_of
cooldown_of url fs = cooldown (state_of url fs)

unfoldable pub note_endpoint_success : String → Failures → Failures
note_endpoint_success url fs = select (λ f. not (f.url == url)) fs

-- The two configured numbers, within the bounds of the source.
pub record Circuit : Type 0 where
  pub threshold : ℕ
  pub cooldown_ms : ℕ

unfoldable pub note_endpoint_failure : Circuit → ℕ → String → Failures → Failures
unfolding state_of
note_endpoint_failure c now url fs =
    let failures = failed_times (state_of url fs) + 1 in
    record {
      url = url;
      failures = failures;
      cooldown_until = if leb c.threshold failures then now + c.cooldown_ms else 0;
    }
    ∷ note_endpoint_success url fs

-- The first of the endpoints that cool down the soonest: the head of the sorted list.
pub soonest : Failures → String → List String → String
soonest fs best [] = best
soonest fs best (u ∷ us) =
    soonest fs (if ltb (cooldown_of u fs) (cooldown_of best fs) then u else best) us

first_sorted : Failures → List String → List String
unfolding soonest
first_sorted fs [] = []
first_sorted fs (u ∷ us) = soonest fs u us ∷ []

unfoldable pub healthy_first : ℕ → Failures → List String → List String
unfolding first_sorted
healthy_first now fs urls =
    let available = select (λ u. leb (cooldown_of u fs) now) urls in
    if ltb 0 (length available) then available else first_sorted fs urls

abbrev pub unavailable : CellFlowError
unavailable = failure ErrorCode.rpc_unavailable 503

-- The loop of `withSession`, with the map of failures that it leaves.
unfoldable pub try_each {ℓ} :
    {A : Type ℓ} → Circuit → ℕ → (String → Result A) → List String → Failures → Result A × Failures
try_each c now operation [] fs = (err unavailable, fs)
try_each c now operation (u ∷ us) fs =
    let rest = try_each c now operation us (note_endpoint_failure c now u fs) in
    elim (operation u) [ ok a ↦ (ok a, note_endpoint_success u fs) | err e ↦ rest ]

unfoldable pub with_session {ℓ} :
    {A : Type ℓ} → Circuit → ℕ → List String → (String → Result A) → Failures → Result A × Failures
with_session c now urls operation fs = try_each c now operation (healthy_first now fs urls) fs

-- A client: its URLs, and what each endpoint answers.
pub record Client : Type 0 where
  pub urls : List String
  pub session_at : String → Session
  pub info_at : String → Result Json
  pub live_cell_at : String → String → ℕ → Result (Option RpcLiveCell)

-- `this.urls.includes(endpoint)`.
abbrev pub includes : List String → String → Bool
includes urls url = any (λ u. u == url) urls

unfoldable pub inspect_input_out_points_at :
    Client → String → String → List InputRef → Identity → Result InputInspection
inspect_input_out_points_at c now endpoint targets identity = do
  throw_if (not (includes c.urls endpoint)) unavailable
  assert_identity (c.session_at endpoint) (c.info_at endpoint) identity
  inspect_input_out_points (c.session_at endpoint) now targets

pub record Canonicality : Type 0 where
  pub canonical : Option Bool
  pub block_number : Option String
  pub canonical_block_hash : Option String

compare_hashes : String → String → Option String → Canonicality
compare_hashes block_hash number none = record {
  canonical = none;
  block_number = some number;
  canonical_block_hash = none;
}
compare_hashes block_hash number (some h) =
    if h == ""
    then record { canonical = none; block_number = some number; canonical_block_hash = none }
    else record {
      canonical = some (lower_text h == lower_text block_hash);
      block_number = some number;
      canonical_block_hash = some h;
    }

compare_at : Session → String → Option String → Result Canonicality
unfolding compare_hashes
compare_at s block_hash none =
    ok (record { canonical = none; block_number = none; canonical_block_hash = none })
compare_at s block_hash (some number) =
    if number == ""
    then ok (record { canonical = none; block_number = none; canonical_block_hash = none })
    else s.get_block_hash number >>= λ h. ok (compare_hashes block_hash number h)

unfoldable pub verify_canonical_block_at : Client → String → String → Result Canonicality
unfolding compare_at
verify_canonical_block_at c endpoint block_hash = do
  throw_if (not (includes c.urls endpoint)) unavailable
  header ← (c.session_at endpoint).get_header block_hash
  compare_at (c.session_at endpoint) block_hash (header_number header)
