-- ===== src/Core/Validation/Idempotence.antt =====
-- What is in normal form is left as it is.
use cell_flow.Prelude.{ℕ, ◌≡◌, String, arith, true, refl, sym, ◌≤◌, List, [], ◌∷◌, length, All}
use cell_flow.Prelude.Hashes.{is_hash, lower_text-hash}
use cell_flow.Prelude.Digits.{codes}
use cell_flow.Core.Types.{OutPointRef}
use cell_flow.Core.Errors.{ok, >>=-eq-ok, ok-injective}
use cell_flow.Core.Validation.{
  normalize_tx_hash, normalize_out_point_index, normalize_out_point_ref, map_result,
  normalize_out_point_refs,
}

normalize_tx_hash_twice : (v h : String) → normalize_tx_hash v ≡ ok h → normalize_tx_hash h ≡ ok h
unfolding normalize_tx_hash
normalize_tx_hash_twice v h e = rw (lower_text-hash h (ground arith)) (ground arith)

-- A 32-byte hash in lower case, and an index that is a uint32.
pub record IsNormal (p : OutPointRef) : Type 0 where
  pub hashed : is_hash (codes p.tx_hash) ≡ true
  pub indexed : p.index ≤ 0xffffffff

normalize_tx_hash-hashed : (v h : String) → normalize_tx_hash v ≡ ok h → is_hash (codes h) ≡ true
unfolding normalize_tx_hash
normalize_tx_hash-hashed v h e = ground arith

normalize_out_point_index_lem :
    (n m : ℕ) → normalize_out_point_index n ≡ ok m → (m ≡ n) × (n ≤ 0xffffffff)
unfolding normalize_out_point_index
normalize_out_point_index_lem n m e = (ground arith, ground arith)

normal_index : (n : ℕ) → n ≤ 0xffffffff → normalize_out_point_index n ≡ ok n
unfolding normalize_out_point_index
normal_index n h = ground arith

normalize_out_point_ref-IsNormal :
    (p q : OutPointRef)
    → normalize_out_point_ref p ≡ ok q
    → IsNormal q × (normalize_out_point_ref q ≡ ok q)
unfolding normalize_out_point_ref
normalize_out_point_ref-IsNormal p q e =
    let (hash, h, e1) = >>=-eq-ok (normalize_tx_hash p.tx_hash) _ e in
    let (index, n, e2) = >>=-eq-ok (normalize_out_point_index p.index) _ e1 in
    let same = sym (ok-injective (record { tx_hash = hash; index = index }) q e2) in
    let (kept, small) = normalize_out_point_index_lem p.index index n in
    rw same (
      record { hashed = normalize_tx_hash-hashed p.tx_hash hash h; indexed = omega (arith, kept) },
      rw (normalize_tx_hash_twice p.tx_hash hash h, normal_index index (omega (arith, kept))) refl,
    )

map_result-IsNormal :
    (ps qs : List OutPointRef)
    → map_result normalize_out_point_ref ps ≡ ok qs
    → All IsNormal qs × (map_result normalize_out_point_ref qs ≡ ok qs) × (length qs ≡ length ps)
unfolding map_result
map_result-IsNormal [] qs e = rw (sym (ok-injective [] qs e)) (tt, refl, refl)
map_result-IsNormal (p ∷ ps) qs e =
    let (q, n, e1) = >>=-eq-ok (normalize_out_point_ref p) _ e in
    let (rs, m, e2) = >>=-eq-ok (map_result normalize_out_point_ref ps) _ e1 in
    let (normal, again) = normalize_out_point_ref-IsNormal p q n in
    let (all, all_again, size) = map_result-IsNormal ps rs m in
    rw (sym (ok-injective (q ∷ rs) qs e2))
      ((normal, all), rw (again, all_again) refl, omega (arith, size))

refs_bounded :
    (ps qs : List OutPointRef)
    → normalize_out_point_refs ps ≡ ok qs
    → (length ps ≤ 1024) × (map_result normalize_out_point_ref ps ≡ ok qs)
unfolding normalize_out_point_refs
refs_bounded ps qs e = (ground arith, ground arith)

refs_again :
    (qs : List OutPointRef)
    → length qs ≤ 1024
    → map_result normalize_out_point_ref qs ≡ ok qs
    → normalize_out_point_refs qs ≡ ok qs
unfolding normalize_out_point_refs
refs_again qs h e = ground arith

-- Inputs that are accepted are at most 1024, as many as were given, each with a 32-byte hash in lower
-- case and an index that is a uint32; and normalising them again changes nothing.
pub normalize_out_point_refs_lem :
    (ps qs : List OutPointRef)
    → normalize_out_point_refs ps ≡ ok qs
    → (length qs ≤ 1024)
      × (length qs ≡ length ps)
      × All IsNormal qs
      × (normalize_out_point_refs qs ≡ ok qs)
normalize_out_point_refs_lem ps qs e =
    let (short, mapped) = refs_bounded ps qs e in
    let (normal, again, size) = map_result-IsNormal ps qs mapped in
    let few : length qs ≤ 1024 = omega (arith, size, short) in
    (few, size, normal, refs_again qs few again)
