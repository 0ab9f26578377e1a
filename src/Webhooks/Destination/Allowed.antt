-- ===== src/Webhooks/Destination/Allowed.antt =====
-- The destinations that are accepted.
use cell_flow.Prelude.{
  ◌≡◌, ◌⊎◌, inl, inr, true, false, not, Bool, List, [], ◌∷◌, Option, none, some, String, ◌==◌,
  string_eq, arith, eq_iff, All, any, Bool-cases, refl, length, nat_beq, nat_eq, subst,
}
use cell_flow.Core.Errors.{ok, >>=-eq-ok, throw_if, ok-injective, CellFlowError, ◌>>◌}
use cell_flow.Webhooks.Destination.{
  Net, Url, DnsRecord, ValidatedWebhookDestination, is_blocked_ip, is_local_dev, is_loopback,
  host_of, check_url, check_records, choose, validate_parsed, validate_webhook_destination,
  has_credentials, is_insecure, is_unsupported, destination, invalid,
}

any-All :
    (p : DnsRecord → Bool) (records : List DnsRecord)
    → any p records ≡ false
    → All (λ r. p r ≡ false) records
any-All p [] h = tt
any-All p (r ∷ records) h = (ground arith, any-All p records (ground arith))

-- Every address of a host outside local development is open; those of local development are
-- loopback addresses.
abbrev pub AreOpen : Net → Bool → List DnsRecord → Type 0
AreOpen net local records =
    ((local ≡ false) × All (λ r. is_blocked_ip net r.address ≡ false) records)
    ⊎ ((local ≡ true) × All (λ r. not (is_loopback r) ≡ false) records)

-- The destination is the first address of the host, reached by HTTPS or in local development.
pub record IsAllowed (net : Net) (allow : Bool) (raw_url : String) (d : ValidatedWebhookDestination)
    : Type 0 where
  pub first : DnsRecord
  pub rest : List DnsRecord
  pub parsed : net.parse_url raw_url ≡ some d.url
  pub secure : (d.url.protocol ≡ "https:") ⊎ (is_local_dev allow d.url ≡ true)
  pub resolved : net.lookup (host_of d.url) ≡ first ∷ rest
  pub pinned : (d.address ≡ first.address) × (d.family ≡ first.family)
  pub open_to_all : AreOpen net (is_local_dev allow d.url) (first ∷ rest)

throw_if-false : (b : Bool) (e : CellFlowError) {u : Unit {0}} → throw_if b e ≡ ok u → b ≡ false
throw_if-false true e h = cc
throw_if-false false e h = refl

check_url-secure :
    (allow : Bool) (url : Url) (u : Unit {0})
    → check_url allow url ≡ ok u
    → (url.protocol ≡ "https:") ⊎ (is_local_dev allow url ≡ true)
unfolding check_url
check_url-secure allow url u h =
    let second = λ (v : Unit {0}). throw_if (is_insecure allow url) invalid in
    let (_, _, g) = >>=-eq-ok (throw_if (has_credentials url) invalid) second h in
    let f = throw_if-false (is_insecure allow url) invalid g in
    elim (Bool-cases (url.protocol == "https:")) [
      | inl https ↦ inl ((eq_iff url.protocol "https:").0 https)
      | inr other ↦ inr (ground arith)
    ]

check_records-open :
    (net : Net) (local : Bool) (records : List DnsRecord) (u : Unit {0})
    → check_records net local records ≡ ok u
    → AreOpen net local records
unfolding check_records
check_records-open net true records u h =
    let outside = any (λ r. not (is_loopback r)) records in
    let (_, loopback, _) = >>=-eq-ok (throw_if outside invalid) (λ v. ok tt) h in
    inr (refl, any-All (λ r. not (is_loopback r)) records (throw_if-false outside invalid loopback))
check_records-open net false records u h = inl (
  refl,
  any-All (λ r. is_blocked_ip net r.address) records
      (throw_if-false (any (λ r. is_blocked_ip net r.address) records) invalid h),
)

choose-first :
    (url : Url) (records : List DnsRecord) (d : ValidatedWebhookDestination)
    → choose url records ≡ ok d
    → (first : DnsRecord) × (rest : List DnsRecord) × (records ≡ first ∷ rest)
      × (destination url first ≡ d)
unfolding choose
choose-first url [] d h = cc
choose-first url (r ∷ rest) d h =
    let (_, _, g) =
      >>=-eq-ok (throw_if (is_unsupported r) invalid) (λ v. ok (destination url r)) h in
    (r, rest, refl, ok-injective (destination url r) d g)

validate_parsed-IsAllowed :
    (net : Net) (allow : Bool) (raw_url : String) (parsed : Option Url)
    (d : ValidatedWebhookDestination)
    → net.parse_url raw_url ≡ parsed
    → validate_parsed net allow parsed ≡ ok d
    → IsAllowed net allow raw_url d
unfolding validate_parsed
validate_parsed-IsAllowed net allow raw_url none d p h = cc
validate_parsed-IsAllowed net allow raw_url (some url) d p h =
    let records = net.lookup (host_of url) in
    let local = is_local_dev allow url in
    let choosing = λ (v : Unit {0}). choose url records in
    let checking = λ (v : Unit {0}). check_records net local records >> choose url records in
    let empty = throw_if (nat_beq (length records) 0) invalid in
    let (u, secure, h₁) = >>=-eq-ok (check_url allow url) (λ v. empty >> checking v) h in
    let (_, _, h₂) = >>=-eq-ok empty checking h₁ in
    let (w, opened, h₃) = >>=-eq-ok (check_records net local records) choosing h₂ in
    let (first, rest, same, chosen) = choose-first url records d h₃ in
    subst (IsAllowed net allow raw_url) chosen (record {
      first = first;
      rest = rest;
      parsed = p;
      secure = check_url-secure allow url u secure;
      resolved = same;
      pinned = (refl, refl);
      open_to_all = subst (AreOpen net local) same (check_records-open net local records w opened);
    })

-- An accepted webhook URL is reached by HTTPS or in local development, at the first address of its
-- host, and no address of the host is blocked, or in local development all are loopback addresses.
pub validate_webhook_destination-IsAllowed :
    (net : Net) (allow : Bool) (raw_url : String) (d : ValidatedWebhookDestination)
    → validate_webhook_destination net allow raw_url ≡ ok d
    → IsAllowed net allow raw_url d
unfolding validate_webhook_destination
validate_webhook_destination-IsAllowed net allow raw_url d h =
    validate_parsed-IsAllowed net allow raw_url (net.parse_url raw_url) d refl h
