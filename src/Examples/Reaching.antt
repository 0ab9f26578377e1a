-- ===== src/Examples/Reaching.antt =====
-- packages/webhooks/src/ssrf.ts at work: addresses and destinations.
use cell_flow.Prelude.{◌≡◌, refl, true, false, [], ◌∷◌, some, none, String, arith}
use cell_flow.Core.Errors.{ok, err}
use cell_flow.Webhooks.Destination.{
  Net, Url, DnsRecord, destination, blocked_octets, validate_webhook_destination, validate_parsed,
  check_url, check_records, choose, is_local_dev, is_blocked_ip, in_v4_range, host_of, invalid,
}
use cell_flow.Webhooks.Destination.Reserved.{is_reserved, blocked_octets_lem}
use cell_flow.Webhooks.Destination.Allowed.{IsAllowed, validate_webhook_destination-IsAllowed}

blocked_octets_lem_example : blocked_octets (172 ∷ 31 ∷ 255 ∷ 1 ∷ []) ≡ is_reserved 172 31 255
blocked_octets_lem_example =
    blocked_octets_lem 172 31 255 1 (omega arith) (omega arith) (omega arith) (omega arith)

abbrev url : Url
url = record { protocol = "https:"; username = ""; password = ""; hostname = "api.example.com" }

abbrev answer : DnsRecord
answer = record { address = "93.184.216.34"; family = 4 }

abbrev net : Net
net = record {
  is_ip = λ ip. 4;
  canonical_v6 = λ ip. none;
  parse_url = λ raw. some url;
  lookup = λ host. answer ∷ [];
}

accepted :
    validate_webhook_destination net false "https://api.example.com/hook"
    ≡ ok (destination url answer)
unfolding validate_webhook_destination validate_parsed check_url check_records choose is_local_dev
    is_blocked_ip blocked_octets in_v4_range host_of cell_flow.Prelude.Digits.read_digits
    cell_flow.Prelude.Digits.decimal_value
accepted = refl

-- A private address is refused.
private_refused :
    validate_webhook_destination
      (record net { lookup = λ host. record { address = "10.1.2.3"; family = 4 } ∷ [] })
      false
      "https://api.example.com/hook"
    ≡ err invalid
unfolding validate_webhook_destination validate_parsed check_url check_records choose is_local_dev
    is_blocked_ip blocked_octets in_v4_range host_of cell_flow.Prelude.Digits.read_digits
    cell_flow.Prelude.Digits.decimal_value
private_refused = refl

validate_webhook_destination-IsAllowed_example :
    IsAllowed net false "https://api.example.com/hook" (destination url answer)
validate_webhook_destination-IsAllowed_example =
    validate_webhook_destination-IsAllowed net false "https://api.example.com/hook"
      (destination url answer) accepted
