-- ===== src/Mint/Laws.antt =====
-- Issuing: the check of a batch's total against a check of each amount, and the supply cap as an
-- invariant.
use asseto_solana_programs.Prelude.{
  ℕ, ⊤, ◌+◌, ◌≤◌, ◌<◌, ◌≡◌, refl, ap, ◌↔◌, some, List, [], ◌∷◌, arith, u64_mod, checked_add,
  Option-cases, inl, inr,
}
use asseto_solana_programs.Errors.{
  mint as mint_error, amount_overflow, Result, ok, ◌>>=◌, ◌>>◌, ok_or, >>=-eq-ok, >>-eq-ok, ok_inj,
}
use asseto_solana_programs.Common.State.{loaded, MintState, AssetClassVersion}
use asseto_solana_programs.Cap.{MaxSupply, require_within_max_supply}
use asseto_solana_programs.Cap.Laws.{IsReadable, require_within_max_supply-Permits}
use asseto_solana_programs.Mint.{batch_total}

abbrev pub sum : List ℕ → ℕ
sum [] = 0
sum (amount ∷ amounts) = amount + sum amounts

pub batch_total-sum :
    (acc : ℕ) (amounts : List ℕ) {total : ℕ}
    → batch_total acc amounts ≡ some total
    → total ≡ acc + sum amounts
unfolding batch_total
batch_total-sum acc [] h = ground arith
batch_total-sum acc (x ∷ xs) {total} h = elim (Option-cases (checked_add acc x)) [
  | inl e ↦ absurd (ground (arith, e, h))
  | inr (s, e) ↦
      let rest = batch_total-sum s xs {total = total} (ground (arith, e, h)) in
      let s_eq : s ≡ acc + x = ground (arith, e) in omega (arith, rest, s_eq)
]

batch_total_fits :
    (acc : ℕ) (amounts : List ℕ)
    → acc + sum amounts < u64_mod
    → batch_total acc amounts ≡ some (acc + sum amounts)
unfolding batch_total
batch_total_fits acc [] h = ground arith
batch_total_fits acc (x ∷ xs) h = ground (arith, batch_total_fits (acc + x) xs (omega arith))

-- The check that `batch_mint` makes of its amounts.
abbrev pub check_total : MintState → MaxSupply → AssetClassVersion → List ℕ → Result ⊤
check_total s m version amounts =
    ok_or (batch_total 0 amounts) (mint_error amount_overflow) >>= λ total.
    require_within_max_supply (ok s) (loaded m) version total

-- The check that `mint_tokens` makes, once for each amount, with the supply that the earlier ones leave.
abbrev pub check_each : MintState → MaxSupply → AssetClassVersion → List ℕ → Result ⊤
check_each s m version [] = require_within_max_supply (ok s) (loaded m) version 0
check_each s m version (amount ∷ amounts) =
    require_within_max_supply (ok s) (loaded m) version amount
    >> check_each (record s { supply = s.supply + amount }) m version amounts

within_iff :
    (s : MintState) (m : MaxSupply) (version : AssetClassVersion) (amount : ℕ)
    → (require_within_max_supply (ok s) (loaded m) version amount ≡ ok tt)
      ↔ (IsReadable version × (s.supply + amount < u64_mod) × (s.supply + amount ≤ m.max_supply))
within_iff s m version amount =
    let both = require_within_max_supply-Permits (ok s) (loaded m) version amount in
    (
      (λ h.
          let (readable, (t, e, fits, below)) = both.0 h in
          (
            readable,
            omega (arith, fits, ap (λ q. q.supply) (ok_inj e)),
            omega (arith, below, ap (λ q. q.supply) (ok_inj e)),
          )),
      λ (readable, fits, below). both.1 (readable, (s, refl, fits, below)),
    )

check_each_sound :
    (s : MintState) (m : MaxSupply) (version : AssetClassVersion) (amounts : List ℕ)
    → check_each s m version amounts ≡ ok tt
    → IsReadable version
      × (s.supply + sum amounts < u64_mod)
      × (s.supply + sum amounts ≤ m.max_supply)
check_each_sound s m version [] h = (within_iff s m version 0).0 h
check_each_sound s m version (x ∷ xs) h =
    let (first, rest) =
      >>-eq-ok (require_within_max_supply (ok s) (loaded m) version x)
        (check_each (record s { supply = s.supply + x }) m version xs) {b = tt} h in
    let (readable, fits, below) =
      check_each_sound (record s { supply = s.supply + x }) m version xs rest in
    (readable, omega (arith, fits), omega (arith, below))

check_each_complete :
    (s : MintState) (m : MaxSupply) (version : AssetClassVersion) (amounts : List ℕ)
    → IsReadable version
    → s.supply + sum amounts < u64_mod
    → s.supply + sum amounts ≤ m.max_supply
    → check_each s m version amounts ≡ ok tt
check_each_complete s m version [] readable fits below =
    (within_iff s m version 0).1 (readable, fits, below)
check_each_complete s m version (x ∷ xs) readable fits below = ground (
  arith,
  (within_iff s m version x).1 (readable, omega (arith, fits), omega (arith, below)),
  check_each_complete (record s { supply = s.supply + x }) m version xs readable
      (omega (arith, fits)) (omega (arith, below)),
)

check_total_sound :
    (s : MintState) (m : MaxSupply) (version : AssetClassVersion) (amounts : List ℕ)
    → check_total s m version amounts ≡ ok tt
    → check_each s m version amounts ≡ ok tt
check_total_sound s m version amounts h =
    let (total, e, h1) =
      >>=-eq-ok (ok_or (batch_total 0 amounts) (mint_error amount_overflow)) _ {b = tt} h in
    let total_eq = batch_total-sum 0 amounts {total = total} (ground (arith, e)) in
    let (readable, fits, below) = (within_iff s m version total).0 h1 in
    check_each_complete s m version amounts readable (omega (arith, fits, total_eq))
      (omega (arith, below, total_eq))

check_total_complete :
    (s : MintState) (m : MaxSupply) (version : AssetClassVersion) (amounts : List ℕ)
    → check_each s m version amounts ≡ ok tt
    → check_total s m version amounts ≡ ok tt
check_total_complete s m version amounts h =
    let (readable, fits, below) = check_each_sound s m version amounts h in
    ground (
      arith,
      batch_total_fits 0 amounts (omega (arith, fits)),
      (within_iff s m version (sum amounts)).1 (readable, fits, below),
    )

-- On an asset with a cap, one check of a batch's total passes exactly if checking the amounts one by
-- one, each against the supply that those before it leave, does.
pub check_total-check_each :
    (s : MintState) (m : MaxSupply) (version : AssetClassVersion) (amounts : List ℕ)
    → (check_total s m version amounts ≡ ok tt) ↔ (check_each s m version amounts ≡ ok tt)
check_total-check_each s m version amounts =
    (check_total_sound s m version amounts, check_total_complete s m version amounts)
