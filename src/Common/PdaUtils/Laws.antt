-- ===== src/Common/PdaUtils/Laws.antt =====
-- The lamports and the sizes of accounts under programs/common/src/pda_utils.rs.
use asseto_solana_programs.Prelude.{
  ℕ, ◌+◌, ◌-◌, ◌≤◌, ◌<◌, ◌≡◌, ◌≢◌, refl, ap, sym, subst, ◌∙◌, inl, inr, true, false, arith, ltb,
  ◌==◌, saturating_sub, checked_add, update, update_self, update_ne, Bool-cases,
}
use asseto_solana_programs.Errors.{
  external, arithmetic_overflow, ok, ◌>>=◌, ok_or, >>=-eq-ok, ok_inj,
}
use asseto_solana_programs.Common.ProgramIds.{Pubkey}
use asseto_solana_programs.Common.System.{SystemProgram, SystemLaws}
use asseto_solana_programs.Common.PdaUtils.{settle_rent, resize_pda, create_or_adopt_pda, close_pda}

module _ (sys : SystemProgram) (laws : SystemLaws sys) (payer pda : Pubkey)
    (apart : pda ≢ payer) where
  open sys use {Accounts, lamports, data_len, minimum_balance, set_lamports, transfer, resize}

  -- Two accounts after lamports went from the first to the second.
  moved :
      (f : ℕ → ℕ) (amount : ℕ)
      → amount ≤ f payer
      → let g = update (update f payer (f payer - amount)) pda (f pda + amount) in
        (g pda ≡ f pda + amount) × (g payer + amount ≡ f payer)
  moved f amount enough = ground (arith, apart)

  -- The same after a write to the second account and one to the first; the first keeps its lamports
  -- over the first write.
  written_both :
      (f g k : ℕ → ℕ) (a b : ℕ)
      → g ≡ update f pda a
      → k ≡ update g payer b
      → (k pda ≡ a) × (k payer ≡ b) × (g payer ≡ f payer)
  written_both f g k a b e1 e2 = (
    ap (λ h. h pda) e2 ∙ update_ne g payer pda b apart ∙ ap (λ h. h pda) e1 ∙ update_self f pda a,
    ap (λ h. h payer) e2 ∙ update_self g payer b,
    ap (λ h. h payer) e1 ∙ update_ne f pda payer a (λ e. apart (sym e)),
  )

  checked_sum :
      (a b : ℕ) {c : ℕ} → ok_or (checked_add a b) (external arithmetic_overflow) ≡ ok c → c ≡ a + b
  checked_sum a b h = ground (arith, h)

  -- No lamports of the two are made or lost.
  abbrev pub Conserves : Accounts → Accounts → Type 0
  Conserves l l' = lamports l' pda + lamports l' payer ≡ lamports l pda + lamports l payer

  paid_in :
      (minimum : ℕ) (l : Accounts) {l' : Accounts}
      → ltb 0 (saturating_sub minimum (lamports l pda)) ≡ true
      → transfer payer pda (saturating_sub minimum (lamports l pda)) l ≡ ok l'
      → (lamports l' pda ≡ minimum) × Conserves l l'
  paid_in minimum l {l'} short h =
      let amount = saturating_sub minimum (lamports l pda) in
      let (enough, same, _) = laws.transfer_moves payer pda amount l apart h in
      let (at_pda, at_payer) = moved (lamports l) amount enough in
      let p : lamports l' pda ≡ lamports l pda + amount = ap (λ f. f pda) same ∙ at_pda in
      let q : lamports l' payer + amount ≡ lamports l payer =
        ap (λ f. f payer + amount) same ∙ at_payer in
      (ground (arith, p, short), ground (arith, p, q))

  paid_back :
      (minimum : ℕ) (l : Accounts) {l' : Accounts}
      → ltb 0 (saturating_sub (lamports l pda) minimum) ≡ true
      → (set_lamports pda (lamports l pda - saturating_sub (lamports l pda) minimum) l >>= λ l1.
          ok_or
            (checked_add (lamports l1 payer) (saturating_sub (lamports l pda) minimum))
            (external arithmetic_overflow)
          >>= λ balance. set_lamports payer balance l1)
        ≡ ok l'
      → (lamports l' pda ≡ minimum) × Conserves l l'
  paid_back minimum l {l'} over h =
      let refund = saturating_sub (lamports l pda) minimum in
      let (l1, first, h1) = >>=-eq-ok (set_lamports pda (lamports l pda - refund) l) _ {b = l'} h in
      let (balance, sum, second) =
        >>=-eq-ok (ok_or (checked_add (lamports l1 payer) refund) (external arithmetic_overflow)) _
          {b = l'} h1 in
      let e1 = (laws.set_lamports_sets pda (lamports l pda - refund) l first).0 in
      let e2 = (laws.set_lamports_sets payer balance l1 second).0 in
      let total = checked_sum (lamports l1 payer) refund sum in
      let (at_pda, at_payer, before) =
        written_both (lamports l) (lamports l1) (lamports l') (lamports l pda - refund) balance e1
          e2 in
      (ground (arith, at_pda, over), ground (arith, at_pda, at_payer, before, total, over))

  settled :
      (minimum : ℕ) (l : Accounts) {l' : Accounts}
      → ltb 0 (saturating_sub minimum (lamports l pda)) ≡ false
      → ltb 0 (saturating_sub (lamports l pda) minimum) ≡ false
      → ok l ≡ ok l'
      → (lamports l' pda ≡ minimum) × Conserves l l'
  settled minimum l enough exact h =
      subst (λ x. (lamports x pda ≡ minimum) × Conserves l x) (ok_inj h)
        (ground (arith, enough, exact), refl)

  settle_rent_lem :
      (minimum : ℕ) (l : Accounts) {l' : Accounts}
      → settle_rent sys payer pda minimum l ≡ ok l'
      → (lamports l' pda ≡ minimum) × Conserves l l'
  unfolding settle_rent
  settle_rent_lem minimum l {l'} h =
      elim (Bool-cases (ltb 0 (saturating_sub minimum (lamports l pda)))) [
        | inl short ↦ paid_in minimum l short (rw (settle_rent, short) at h)
        | inr enough ↦ elim (Bool-cases (ltb 0 (saturating_sub (lamports l pda) minimum))) [
          | inl over ↦ paid_back minimum l over (rw (settle_rent, enough, over) at h)
          | inr exact ↦ settled minimum l enough exact (rw (settle_rent, enough, exact) at h)
        ]
      ]

  -- The account has the size, and just the lamports that the size asks for; none are made or lost.
  abbrev pub IsSized : ℕ → Accounts → Accounts → Type 0
  IsSized space l l' =
      (data_len l' pda ≡ space) × (lamports l' pda ≡ minimum_balance space) × Conserves l l'

  pub resize_pda-IsSized :
      (space : ℕ) (l : Accounts) {l' : Accounts}
      → space ≢ data_len l pda
      → resize_pda sys payer pda space l ≡ ok l'
      → IsSized space l l'
  unfolding resize_pda
  resize_pda-IsSized space l {l'} other h =
      let differs : (space == data_len l pda) ≡ false = ground (arith, other) in
      let (l1, paid, sized) =
        >>=-eq-ok (settle_rent sys payer pda (minimum_balance space) l) _ {b = l'}
          (rw (resize_pda, differs) at h) in
      let (exact, kept) = settle_rent_lem (minimum_balance space) l paid in
      let (same, len) = laws.resize_sets pda space l1 sized in
      (
        ap (λ f. f pda) len ∙ update_self (data_len l1) pda space,
        ap (λ f. f pda) same ∙ exact,
        ap (λ f. f pda + f payer) same ∙ kept,
      )

  -- An account of the right size is left as it is.
  pub resize_pda_same :
      (space : ℕ) (l : Accounts) {l' : Accounts}
      → space ≡ data_len l pda
      → resize_pda sys payer pda space l ≡ ok l'
      → l ≡ l'
  unfolding resize_pda
  resize_pda_same space l {l'} same h =
      let equal : (space == data_len l pda) ≡ true = ground (arith, same) in
      ok_inj (rw (resize_pda, equal) at h)

  created :
      (program_id : Pubkey) (space : ℕ) (l : Accounts) {l' : Accounts}
      → (lamports l pda == 0) ≡ true
      → sys.create_account payer pda (minimum_balance space) space program_id l ≡ ok l'
      → IsSized space l l'
  created program_id space l {l'} fresh h =
      let amount = minimum_balance space in
      let (enough, same, len) =
        laws.create_account_moves payer pda amount space program_id l apart h in
      let (at_pda, at_payer) = moved (lamports l) amount enough in
      let p : lamports l' pda ≡ lamports l pda + amount = ap (λ f. f pda) same ∙ at_pda in
      let q : lamports l' payer + amount ≡ lamports l payer =
        ap (λ f. f payer + amount) same ∙ at_payer in
      (
        ap (λ f. f pda) len ∙ update_self (data_len l) pda space,
        ground (arith, p, fresh),
        ground (arith, p, q),
      )

  pub create_or_adopt_pda-IsSized :
      (program_id : Pubkey) (space : ℕ) (l : Accounts) {l' : Accounts}
      → data_len l pda ≡ 0
      → 0 < space
      → create_or_adopt_pda sys payer pda program_id space l ≡ ok l'
      → IsSized space l l'
  unfolding create_or_adopt_pda
  create_or_adopt_pda-IsSized program_id space l {l'} none positive h =
      elim (Bool-cases (lamports l pda == 0)) [
        | inl fresh ↦ created program_id space l fresh (rw (create_or_adopt_pda, fresh) at h)
        | inr funded ↦
            let (l1, assigned, resized) =
              >>=-eq-ok (sys.assign pda program_id l) _ {b = l'}
                (rw (create_or_adopt_pda, funded) at h) in
            let (same, len) = laws.assign_keeps pda program_id l assigned in
            let differs : space ≢ data_len l1 pda =
              λ e. ground (arith, e, ap (λ f. f pda) len, none, positive) in
            let (a, b, c) = resize_pda-IsSized space l1 differs resized in
            (a, b, c ∙ ap (λ f. f pda + f payer) same)
      ]

  -- A closed account gives all its lamports to the other.
  pub close_pda-Conserves :
      (l : Accounts) {l' : Accounts}
      → close_pda sys pda payer l ≡ ok l'
      → (lamports l' pda ≡ 0) × Conserves l l'
  unfolding close_pda
  close_pda-Conserves l {l'} h =
      let (l1, first, h1) = >>=-eq-ok (set_lamports pda 0 l) _ {b = l'} h in
      let (balance, sum, h2) =
        >>=-eq-ok
          (ok_or (checked_add (lamports l1 payer) (lamports l pda)) (external arithmetic_overflow))
          _ {b = l'} h1 in
      let (l2, second, zeroed) = >>=-eq-ok (set_lamports payer balance l1) _ {b = l'} h2 in
      let e1 = (laws.set_lamports_sets pda 0 l first).0 in
      let e2 = (laws.set_lamports_sets payer balance l1 second).0 in
      let e3 = (laws.fill_zero_keeps pda l2 zeroed).0 in
      let total = checked_sum (lamports l1 payer) (lamports l pda) sum in
      let (at_pda, at_payer, before) =
        written_both (lamports l) (lamports l1) (lamports l') 0 balance e1 (e3 ∙ e2) in
      (at_pda, ground (arith, at_pda, at_payer, before, total))
