-- ===== src/Ata/Poll.antt =====
-- What the polls of the disk's status find.
use sandor_os.Prelude.{
  ℕ, zero, suc, ◌+◌, ◌-◌, ◌<◌, ◌≡◌, refl, ap, ◌⊎◌, inl, inr, ◌↔◌, Bool, true, false, arith, ◌==◌,
  ne→==, Bool-cases, ==→eq, ◌∙◌,
}
use sandor_os.Io.{Trace, Device, inportb}
use sandor_os.Ata.{hd_status_offset, has_bit, poll, hd_busy, hd_ready, not}

not-false : (b : Bool) → not b ≡ false → b ≡ true
not-false true e = refl
not-false false e = cc

module _ (device : Device) where
  -- The trace after `k` reads of the status, and the status that the next read finds.
  abbrev pub reads : (port k : ℕ) → Trace → Trace
  reads port zero t = t
  reads port (suc k) t = reads port k (inportb device (port + hd_status_offset) t).1

  abbrev pub status : (port k : ℕ) → Trace → ℕ
  status port k t = (inportb device (port + hd_status_offset) (reads port k t)).0

  module _ (again : ℕ → Bool) (port : ℕ) where
    -- The first of the first `n` statuses that fails the test is the one at `k`.
    pub record Found (n k : ℕ) (t : Trace) (r : ℕ × Trace) : Type 0 where
      pub soon : k < n
      pub stop : again (status port k t) ≡ false
      pub before : (j : ℕ) → j < k → again (status port j t) ≡ true
      pub result : r ≡ (n - k, reads port (suc k) t)

    -- None does.
    pub record Never (n : ℕ) (t : Trace) (r : ℕ × Trace) : Type 0 where
      pub all : (j : ℕ) → j < n → again (status port j t) ≡ true
      pub result : r ≡ (0, reads port (suc n) t)

    Found-later :
        (n k : ℕ) (t : Trace) (r : ℕ × Trace)
        → again (status port 0 t) ≡ true
        → Found n k (reads port 1 t) r
        → Found (suc n) (suc k) t r
    Found-later n k t r on f = record {
      soon = omega (arith, f.soon);
      stop = f.stop;
      before = before;
      result = f.result ∙ ap (λ i. (i, reads port (suc (suc k)) t)) (omega arith);
    }
      where
        before : (j : ℕ) → j < suc k → again (status port j t) ≡ true
        before zero lt = on
        before (suc j) lt = f.before j (omega arith)

    Never-later :
        (n : ℕ) (t : Trace) (r : ℕ × Trace)
        → again (status port 0 t) ≡ true
        → Never n (reads port 1 t) r
        → Never (suc n) t r
    Never-later n t r on f = record { all = all; result = f.result }
      where
        all : (j : ℕ) → j < suc n → again (status port j t) ≡ true
        all zero lt = on
        all (suc j) lt = f.all j (omega arith)

    poll-Found :
        (n : ℕ) (t : Trace)
        → ((k : ℕ) × Found n k t (poll device again port (suc n) t))
          ⊎ Never n t (poll device again port (suc n) t)
    unfolding poll
    poll-Found zero t = elim (Bool-cases (again (status port 0 t))) [
      | inl on ↦ inr (record { all = λ j lt. absurd (omega arith); result = rw on refl })
      | inr off ↦ inr (record { all = λ j lt. absurd (omega arith); result = rw off refl })
    ]
    poll-Found (suc n) t = elim (Bool-cases (again (status port 0 t))) [
      | inr off ↦ inl (
        0,
        record {
          soon = omega arith;
          stop = off;
          before = λ j lt. absurd (omega arith);
          result = rw off (ap (λ i. (i, reads port 1 t)) (omega arith));
        },
      )
      | inl on ↦
          rw (on, ne→== (suc n) 0 (λ e. absurd (omega arith)))
            (elim (poll-Found n (reads port 1 t)) [
              | inl (k, f) ↦ inl (suc k, Found-later n k t _ on f)
              | inr f ↦ inr (Never-later n t _ on f)
            ])
    ]

    -- The count is 0 just when the first `n` statuses pass the test.
    poll-zero_iff :
        (n : ℕ) (t : Trace)
        → ((poll device again port (suc n) t).0 == 0) ≡ true
          ↔ ((j : ℕ) → j < n → again (status port j t) ≡ true)
    poll-zero_iff n t = elim (poll-Found n t) [
      | inl (k, f) ↦
          ((λ e. absurd (positive k f e)), (λ all. absurd (clash k (f.stop) (all k (f.soon)))))
      | inr f ↦ ((λ e. f.all), (λ all. rw (f.result) refl))
    ]
      where
        positive :
            (k : ℕ)
            → Found n k t (poll device again port (suc n) t)
            → ((poll device again port (suc n) t).0 == 0) ≡ true
            → ⊥
        positive k f e = omega (arith, ==→eq _ _ e, f.soon, ap (λ r. r.0) (f.result))

        clash : (k : ℕ) → again (status port k t) ≡ false → again (status port k t) ≡ true → ⊥
        clash k a b = cc

    -- The count is not 0 just when one of the first `n` statuses fails the test.
    poll-positive_iff :
        (n : ℕ) (t : Trace)
        → (not ((poll device again port (suc n) t).0 == 0) ≡ true)
          ↔ ((k : ℕ) × (k < n) × (again (status port k t) ≡ false))
    poll-positive_iff n t = elim (poll-Found n t) [
      | inl (k, f) ↦ (
        (λ e. (k, f.soon, f.stop)),
        (λ any. rw (f.result, ne→== (n - k) 0 (λ e. absurd (omega (arith, f.soon)))) refl),
      )
      | inr f ↦
          ((λ e. absurd (zero f e)), (λ (k, soon, stop). absurd (clash k stop (f.all k soon))))
    ]
      where
        zero :
            Never n t (poll device again port (suc n) t)
            → not ((poll device again port (suc n) t).0 == 0) ≡ true
            → ⊥
        zero f e =
            let off : not ((poll device again port (suc n) t).0 == 0) ≡ false =
              rw (f.result) refl in
            cc

        clash : (k : ℕ) → again (status port k t) ≡ false → again (status port k t) ≡ true → ⊥
        clash k a b = cc

  -- For any device and trace, `hd_busy` reports the disk busy just when the busy bit is set in each
  -- of the first 5999 statuses that it would read.
  pub hd_busy-true_iff :
      (port : ℕ) (t : Trace)
      → ((hd_busy device port t).0 ≡ true)
        ↔ ((j : ℕ) → j < 5999 → has_bit 128 (status port j t) ≡ true)
  unfolding hd_busy
  hd_busy-true_iff port t = poll-zero_iff (λ s. has_bit 128 s) port 5999 t

  -- For any device and trace, `hd_ready` ends, and reports the disk ready just when one of the
  -- first 5999 statuses that it would read has the ready bit; a disk that is ready within these is
  -- never missed, and one that is ready only at the 6000th is.
  pub hd_ready-true_iff :
      (port : ℕ) (t : Trace)
      → ((hd_ready device port t).0 ≡ true)
        ↔ ((k : ℕ) × (k < 5999) × (has_bit 64 (status port k t) ≡ true))
  unfolding hd_ready
  hd_ready-true_iff port t =
      let iff = poll-positive_iff (λ s. not (has_bit 64 s)) port 5999 t in
      (
        (λ e. let (k, soon, bit) = iff.0 e in (k, soon, not-false _ bit)),
        (λ (k, soon, bit). iff.1 (k, soon, rw bit refl)),
      )
