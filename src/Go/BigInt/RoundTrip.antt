-- ===== src/Go/BigInt/RoundTrip.antt =====
-- `SetBytes` undoes `Bytes`.
use k_vm_common_go.Prelude.{
  ℕ, zero, suc, ◌/◌, ◌%◌, ◌≤◌, ◌≡◌, arith, ◌==◌, ap, Bool, true, false, [], ◌∷◌, Bytes, AreBytes,
}
use k_vm_common_go.Go.BigInt.{read_from, set_bytes, print_onto, to_bytes}

read_from_digit : (n : ℕ) (out : Bytes) → read_from (n / 256) ((n % 256) ∷ out) ≡ read_from n out
unfolding read_from
read_from_digit n out = ap (λ m. read_from m out) (omega arith)

read_from-print_onto :
    (fuel n : ℕ) (out : Bytes) → n ≤ fuel → read_from 0 (print_onto fuel n out) ≡ read_from n out
unfolding print_onto
read_from-print_onto zero n out h = let e : n ≡ 0 = omega arith in rw e
read_from-print_onto (suc fuel) n out h =
    ground (arith, read_from-print_onto fuel (n / 256) ((n % 256) ∷ out), read_from_digit n out)

print_onto-AreBytes : (fuel n : ℕ) (out : Bytes) → AreBytes out → AreBytes (print_onto fuel n out)
unfolding print_onto
print_onto-AreBytes zero n out h = h
print_onto-AreBytes (suc fuel) n out h =
    rest (n == 0) (print_onto-AreBytes fuel (n / 256) ((n % 256) ∷ out) (omega arith, h))
  where
    rest :
        (b : Bool)
        → AreBytes (print_onto fuel (n / 256) ((n % 256) ∷ out))
        → AreBytes (elim b [ true ↦ out | false ↦ print_onto fuel (n / 256) ((n % 256) ∷ out) ])
    rest true k = h
    rest false k = k

-- Reading the bytes of a number gives the number, at every size.
pub set_bytes-to_bytes : (n : ℕ) → set_bytes (to_bytes n) ≡ n
unfolding set_bytes to_bytes
set_bytes-to_bytes n = read_from-print_onto n n [] (omega arith)

pub to_bytes-AreBytes : (n : ℕ) → AreBytes (to_bytes n)
unfolding to_bytes
to_bytes-AreBytes n = print_onto-AreBytes n n [] tt
