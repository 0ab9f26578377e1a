-- ===== src/Webhooks/Destination.antt =====
-- packages/webhooks/src/ssrf.ts: the addresses that a webhook may not reach. The parsing of URLs,
-- `isIP` and the lookup of names, which is taken to answer, are parameters. An address is read as
-- its code units.
pub mod Reserved
pub mod Allowed
use Prim.Native.Char.{code}
use cell_flow.Prelude.{
  ℕ, zero, suc, ◌+◌, ◌-◌, ◌*◌, ◌/◌, ◌%◌, ◌^◌, Bool, true, false, not, ◌&&◌, ◌||◌, List, [], ◌∷◌,
  map, Option, none, some, String, if◌then◌else◌, ◌==◌, string_eq, nat_eq, nat_beq, leb, any,
  length, ◌++◌, is_some,
}
use cell_flow.Prelude.Digits.{codes, hex_value, decimal_value, read_digits}
use cell_flow.Prelude.Letters.{lower_text}
use cell_flow.Core.Errors.{
  ErrorCode, CellFlowError, Result, ok, err, failure, throw_if, ◌>>=◌, ◌>>◌,
}

-- From the number so far, which the shift keeps within 32 bits.
abbrev pub ipv4_from : ℕ → List ℕ → ℕ
ipv4_from acc [] = acc
ipv4_from acc (octet ∷ rest) = ipv4_from ((acc * 256) % 2 ^ 32 + octet) rest

-- `ipv4ToInt`, of the octets.
abbrev pub ipv4_to_int : List ℕ → ℕ
ipv4_to_int octets = ipv4_from 0 octets

-- `x & mask`, for the mask of the first bits.
abbrev pub masked : ℕ → ℕ → ℕ
masked prefix x = x / 2 ^ (32 - prefix) * 2 ^ (32 - prefix)

unfoldable pub in_v4_range : List ℕ → List ℕ → ℕ → Bool
in_v4_range ip base prefix =
    nat_beq (masked prefix (ipv4_to_int ip)) (masked prefix (ipv4_to_int base))

abbrev pub v4_ranges : List (List ℕ × ℕ)
v4_ranges =
    (0 ∷ 0 ∷ 0 ∷ 0 ∷ [], 8)
    ∷ (10 ∷ 0 ∷ 0 ∷ 0 ∷ [], 8)
    ∷ (100 ∷ 64 ∷ 0 ∷ 0 ∷ [], 10)
    ∷ (127 ∷ 0 ∷ 0 ∷ 0 ∷ [], 8)
    ∷ (169 ∷ 254 ∷ 0 ∷ 0 ∷ [], 16)
    ∷ (172 ∷ 16 ∷ 0 ∷ 0 ∷ [], 12)
    ∷ (192 ∷ 0 ∷ 0 ∷ 0 ∷ [], 24)
    ∷ (192 ∷ 0 ∷ 2 ∷ 0 ∷ [], 24)
    ∷ (192 ∷ 168 ∷ 0 ∷ 0 ∷ [], 16)
    ∷ (198 ∷ 18 ∷ 0 ∷ 0 ∷ [], 15)
    ∷ (198 ∷ 51 ∷ 100 ∷ 0 ∷ [], 24)
    ∷ (203 ∷ 0 ∷ 113 ∷ 0 ∷ [], 24)
    ∷ (224 ∷ 0 ∷ 0 ∷ 0 ∷ [], 4)
    ∷ (240 ∷ 0 ∷ 0 ∷ 0 ∷ [], 4)
    ∷ []

unfoldable pub blocked_octets : List ℕ → Bool
blocked_octets ip = any (λ (r : List ℕ × ℕ). in_v4_range ip r.0 r.1) v4_ranges

-- The part up to a code unit, and the part after it where it is there.
split_at : ℕ → List ℕ → List ℕ × Option (List ℕ)
split_at at [] = ([], none)
split_at at (c ∷ cs) =
    let (first, rest) = split_at at cs in if nat_beq c at then ([], some cs) else (c ∷ first, rest)

number_or_zero : Option ℕ → ℕ
number_or_zero none = 0
number_or_zero (some n) = n

-- `ip.split(".")`, each part as a number, on the parts so far.
octets_from : List ℕ → List ℕ → List ℕ
unfolding number_or_zero
octets_from part [] = number_or_zero (read_digits 10 decimal_value 0 part) ∷ []
octets_from part (c ∷ cs) =
    let next = octets_from [] cs in
    let more = octets_from (part ++ c ∷ []) cs in
    if nat_beq c b'.' then number_or_zero (read_digits 10 decimal_value 0 part) ∷ next else more

strip : List ℕ → List ℕ → Option (List ℕ)
strip [] text = some text
strip (p ∷ ps) [] = none
strip (p ∷ ps) (c ∷ cs) = let rest = strip ps cs in if nat_beq p c then rest else none

abbrev starts_with : String → List ℕ → Bool
starts_with prefix text = is_some (strip (codes prefix) text)

-- `[0-9a-f]{1,4}`, on a whole text.
word : List ℕ → Option ℕ
word cs = if leb 1 (length cs) && leb (length cs) 4 then read_digits 16 hex_value 0 cs else none

both_words : Option ℕ → Option ℕ → Option (ℕ × ℕ)
both_words (some high) (some low) = some (high, low)
both_words _ _ = none

-- Two words around a colon.
two_words : Option (List ℕ) → Option (ℕ × ℕ)
unfolding split_at both_words word
two_words none = none
two_words (some text) =
    let (high, rest) = split_at b':' text in
    elim rest [ none ↦ none | some low ↦ both_words (word high) (word low) ]

or_else {ℓ} : {A : Type ℓ} → Option A → Option A → Option A
or_else none other = other
or_else (some a) other = some a

-- The groups of `/^::(?:(?:ffff:|ffff:0:))?([0-9a-f]{1,4}):([0-9a-f]{1,4})$/`.
mapped_words : List ℕ → Option (ℕ × ℕ)
unfolding strip two_words or_else
mapped_words text = elim (strip (codes "::") text) [
  | none ↦ none
  | some rest ↦
      or_else (two_words (strip (codes "ffff:") rest))
        (or_else (two_words (strip (codes "ffff:0:") rest)) (two_words (some rest)))
]

-- An address of version 6 by its canonical text, and by the mapped address where there is one.
unfoldable pub blocked_v6 : String → Option (ℕ × ℕ) → Bool
unfolding strip
blocked_v6 value (some (high, low)) =
    blocked_octets (high / 256 ∷ high % 256 ∷ low / 256 ∷ low % 256 ∷ [])
blocked_v6 value none =
    value == "::"
    || value == "::1"
    || any (λ prefix. starts_with prefix (codes value))
        ("fc" ∷ "fd" ∷ "fe8" ∷ "fe9" ∷ "fea" ∷ "feb" ∷ "ff" ∷ "2001:db8" ∷ "2002:" ∷ "2001::"
          ∷ "2001:0:" ∷ "2001:10:" ∷ "2001:20:" ∷ "64:ff9b::" ∷ "64:ff9b:1:" ∷ "3fff:" ∷ [])

pub record Url : Type 0 where
  pub protocol : String
  pub username : String
  pub password : String
  pub hostname : String

pub record DnsRecord : Type 0 where
  pub address : String
  pub family : ℕ

-- The platform: `isIP`, the host name of `http://[ip]/` without its brackets, the parsing of URLs
-- and the lookup of a name.
pub record Net : Type 0 where
  pub is_ip : String → ℕ
  pub canonical_v6 : String → Option String
  pub parse_url : String → Option Url
  pub lookup : String → List DnsRecord

abbrev or_blocked : Option String → Bool
or_blocked none = true
or_blocked (some value) = blocked_v6 (lower_text value) (mapped_words (codes (lower_text value)))

unfoldable pub is_blocked_ip : Net → String → Bool
unfolding octets_from mapped_words
is_blocked_ip net ip =
    let family = net.is_ip ip in
    if family == 4
    then blocked_octets (octets_from [] (codes ip))
    else if family == 6
    then or_blocked (net.canonical_v6 ip)
    else true

drop_last_bracket : String → String
drop_last_bracket String.[] = String.[]
drop_last_bracket (String.◌∷◌ c s) =
    let rest = drop_last_bracket s in
    if s == "" && nat_beq (code c) b']' then String.[] else String.◌∷◌ c rest

-- `hostname.replace(/^\[|\]$/g, "")`.
unbracket : String → String
unfolding drop_last_bracket
unbracket String.[] = String.[]
unbracket (String.◌∷◌ c s) =
    let rest = drop_last_bracket s in
    if nat_beq (code c) b'[' then rest else drop_last_bracket (String.◌∷◌ c s)

unfoldable pub host_of : Url → String
unfolding unbracket
host_of url = unbracket url.hostname

unfoldable pub is_local_dev : Bool → Url → Bool
is_local_dev allow_http_localhost url =
    allow_http_localhost
    && (host_of url == "localhost" || host_of url == "127.0.0.1" || host_of url == "::1")

unfoldable pub is_loopback : DnsRecord → Bool
unfolding strip
is_loopback r = r.address == "::1" || (r.family == 4 && starts_with "127." (codes r.address))

pub record ValidatedWebhookDestination : Type 0 where
  pub url : Url
  pub address : String
  pub family : ℕ

abbrev pub invalid : CellFlowError
invalid = failure ErrorCode.webhook_url_invalid 400

abbrev pub has_credentials : Url → Bool
has_credentials url = not (url.username == "") || not (url.password == "")

abbrev pub is_insecure : Bool → Url → Bool
is_insecure allow url =
    not (url.protocol == "https:") && not (is_local_dev allow url && url.protocol == "http:")

unfoldable pub check_url : Bool → Url → Result (Unit {0})
check_url allow url = do
  throw_if (has_credentials url) invalid
  throw_if (is_insecure allow url) invalid

unfoldable pub check_records : Net → Bool → List DnsRecord → Result (Unit {0})
check_records net local records = do
  throw_if (local && any (λ r. not (is_loopback r)) records) invalid
  throw_if (not local && any (λ r. is_blocked_ip net r.address) records) invalid

abbrev pub is_unsupported : DnsRecord → Bool
is_unsupported r = not (r.family == 4) && not (r.family == 6)

abbrev pub destination : Url → DnsRecord → ValidatedWebhookDestination
destination url r = record { url = url; address = r.address; family = r.family }

-- The first record is taken.
unfoldable pub choose : Url → List DnsRecord → Result ValidatedWebhookDestination
choose url [] = err invalid
choose url (r ∷ rest) = do throw_if (is_unsupported r) invalid; ok (destination url r)

unfoldable pub validate_parsed : Net → Bool → Option Url → Result ValidatedWebhookDestination
unfolding choose
validate_parsed net allow none = err invalid
validate_parsed net allow (some url) = do
  check_url allow url
  throw_if (nat_beq (length (net.lookup (host_of url))) 0) invalid
  check_records net (is_local_dev allow url) (net.lookup (host_of url))
  choose url (net.lookup (host_of url))

unfoldable pub validate_webhook_destination :
    Net → Bool → String → Result ValidatedWebhookDestination
unfolding validate_parsed
validate_webhook_destination net allow_http_localhost raw_url =
    validate_parsed net allow_http_localhost (net.parse_url raw_url)
