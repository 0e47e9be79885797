-- ===== src/Common/SystemExample.antt =====
-- A System program that keeps lamports and sizes in two maps, and that it does what is documented.
use asseto_solana_programs.Prelude.{
  ℕ, ◌+◌, ◌-◌, ◌≤◌, ◌≡◌, ap, sym, inl, inr, arith, leb, update, Bool-cases, if◌then◌else◌,
}
use asseto_solana_programs.Errors.{external, insufficient_funds, Result, ok, err, ok_inj}
use asseto_solana_programs.Common.ProgramIds.{Pubkey}
use asseto_solana_programs.Common.System.{SystemProgram, SystemLaws}

pub record Bank : Type 0 where
  pub lamports : Pubkey → ℕ
  pub data_len : Pubkey → ℕ

abbrev paid : Pubkey → Pubkey → ℕ → (ℕ → ℕ) → Bank → Bank
paid from to amount sizes l = record {
  lamports = update (update l.lamports from (l.lamports from - amount)) to (l.lamports to + amount);
  data_len = sizes;
}

abbrev pay : Pubkey → Pubkey → ℕ → (ℕ → ℕ) → Bank → Result Bank
pay from to amount sizes l =
    if leb amount (l.lamports from)
    then ok (paid from to amount sizes l)
    else err (external insufficient_funds)

abbrev pub system : SystemProgram
system = record {
  Accounts = Bank;
  lamports = λ l. l.lamports;
  data_len = λ l. l.data_len;
  minimum_balance = λ size. 128 + size;
  create_account =
      λ from to amount space owner l. pay from to amount (update l.data_len to space) l;
  assign = λ account owner l. ok l;
  transfer = λ from to amount l. pay from to amount l.data_len l;
  set_lamports = λ account amount l. ok (record l { lamports = update l.lamports account amount });
  resize = λ account space l. ok (record l { data_len = update l.data_len account space });
  fill_zero = λ account l. ok l;
}

pay_facts :
    (from to : Pubkey) (amount : ℕ) (sizes : ℕ → ℕ) (l : Bank) {l' : Bank}
    → pay from to amount sizes l ≡ ok l'
    → (amount ≤ l.lamports from) × (l' ≡ paid from to amount sizes l)
pay_facts from to amount sizes l {l'} h = elim (Bool-cases (leb amount (l.lamports from))) [
  | inl enough ↦ (ground (arith, enough), sym (ok_inj (rw enough at h)))
  | inr short ↦ absurd (refused (rw short at h))
]
  where
    refused : err (external insufficient_funds) ≡ ok l' → ⊥
    refused e = cc

pub system-SystemLaws : SystemLaws system
system-SystemLaws = record {
  create_account_moves = λ from to amount space owner l {l'} apart h.
      let (enough, e) = pay_facts from to amount (update l.data_len to space) l h in
      (enough, ap (λ x. x.lamports) e, ap (λ x. x.data_len) e);
  assign_keeps = λ account owner l {l'} h.
      let e = ok_inj h in (ap (λ x. x.lamports) (sym e), ap (λ x. x.data_len) (sym e));
  transfer_moves = λ from to amount l {l'} apart h.
      let (enough, e) = pay_facts from to amount l.data_len l h in
      (enough, ap (λ x. x.lamports) e, ap (λ x. x.data_len) e);
  set_lamports_sets = λ account amount l {l'} h.
      let e = ok_inj h in (ap (λ x. x.lamports) (sym e), ap (λ x. x.data_len) (sym e));
  resize_sets = λ account space l {l'} h.
      let e = ok_inj h in (ap (λ x. x.lamports) (sym e), ap (λ x. x.data_len) (sym e));
  fill_zero_keeps = λ account l {l'} h.
      let e = ok_inj h in (ap (λ x. x.lamports) (sym e), ap (λ x. x.data_len) (sym e));
}

-- 1000 lamports in account 1.
abbrev pub bank : Bank
bank = record { lamports = update (λ k. 0) 1 1000; data_len = λ k. 0 }
