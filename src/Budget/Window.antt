-- ===== src/Budget/Window.antt =====
-- A history of tower-retry/src/budget.rs that falls into one window, so that nothing expires.
use pants_tower.Base.{
  ℕ, suc, ◌+◌, ◌-◌, ◌*◌, ◌^◌, ◌≤◌, ◌<◌, ◌≡◌, refl, ap, ◌∙◌, List, [], ◌∷◌, if◌then◌else◌, length,
  arith, inl, inr,
}
use pants_tower.Base.Int.{ℤ, pos, pos_part, neg_part, int_laws, ◌+ℤ◌, ◌≤ℤ◌}
use pants_tower.Service.{Result, success, failure}
use pants_tower.Budget.{Bucket, Budget, Overdrawn, expire, sum, put, try_get, deposit, withdraw}
use pants_tower.Budget.Run.{IsModest, sum-put, sum-try_get}

pub data Op : Type 0 where
  deposits withdraws : Op

abbrev granted : Result (Unit {0}) Overdrawn → ℕ
granted (success u) = 1
granted (failure e) = 0

-- The withdrawals that the operation grants, and the budget after it.
step : ℕ → Op → Budget → ℕ × Budget
step now deposits b = (0, deposit now b)
step now withdraws b = let (r, b') = withdraw now b in (granted r, b')

pub run : List (ℕ × Op) → Budget → ℕ × Budget
run [] b = (0, b)
run ((now, op) ∷ es) b = let (g, b') = step now op b in let (n, b'') = run es b' in (g + n, b'')

abbrev pub count_deposits : List (ℕ × Op) → ℕ
count_deposits [] = 0
count_deposits ((now, deposits) ∷ es) = suc (count_deposits es)
count_deposits ((now, withdraws) ∷ es) = count_deposits es

-- Every operation comes less than a window after the last generation.
abbrev IsRecent : Bucket → List (ℕ × Op) → Type 0
IsRecent b [] = Unit {0}
IsRecent b ((now, op) ∷ es) = (now - b.generation.time < b.window) × IsRecent b es

expire_recent : (now : ℕ) (b : Bucket) → now - b.generation.time < b.window → expire now b ≡ b
unfolding expire
expire_recent now b h = ground arith

-- What an operation does to the balance, and that the window stands.
record Keeps (d w g k m : ℕ) (b b' : Budget) : Type 0 where
  balance : sum b'.bucket +ℤ pos (w * g) ≡ sum b.bucket +ℤ pos (d * k)
  nonneg : pos 0 ≤ℤ sum b.bucket → pos 0 ≤ℤ sum b'.bucket
  modest : IsModest (m + d + w) b'.bucket
  same : b'.bucket.generation ≡ b.bucket.generation
  window : b'.bucket.window ≡ b.bucket.window
  amount : b'.deposit_amount ≡ pos d
  price : b'.withdraw_amount ≡ pos w

IsModest-mono : (m n : ℕ) (b : Bucket) → m ≤ n → IsModest m b → IsModest n b
IsModest-mono m n b l h = omega arith

put_same :
    (now : ℕ) (a : ℤ) (b : Bucket)
    → ((put now a b).generation ≡ (expire now b).generation)
      × ((put now a b).window ≡ (expire now b).window)
unfolding put
put_same now a b = (refl, refl)

try_get_same :
    (now : ℕ) (a : ℤ) (b : Bucket)
    → ((try_get now a b).1.generation ≡ (expire now b).generation)
      × ((try_get now a b).1.window ≡ (expire now b).window)
unfolding try_get
try_get_same now a b = ground arith

-- The operations at amounts that are spelled out.
module _ (d w m now : ℕ) (b : Bucket) (modest : IsModest m b) (room : m + d + w ≤ 2 ^ 60)
    (recent : now - b.generation.time < b.window) where
  put-recent :
      let b' = put now (pos d) b in
      (sum b' ≡ sum b +ℤ pos d)
      × IsModest (m + d) b'
      × (b'.generation ≡ b.generation)
      × (b'.window ≡ b.window)
  put-recent =
      let e = expire_recent now b recent in
      let modest' : IsModest m (expire now b) = rw e modest in
      let (s, v) = sum-put now m d b modest' (omega arith) in
      let (g, u) = put_same now (pos d) b in (rw e at s, v, rw e at g, rw e at u)

  try_get-recent :
      let (g, b') = try_get now (pos w) b in
      (sum b' +ℤ pos (w * (if g then 1 else 0)) ≡ sum b)
      × (pos 0 ≤ℤ sum b → pos 0 ≤ℤ sum b')
      × IsModest (m + w) b'
      × (b'.generation ≡ b.generation)
      × (b'.window ≡ b.window)
  try_get-recent =
      let e = expire_recent now b recent in
      let modest' : IsModest m (expire now b) = rw e modest in
      let (g, u) = try_get_same now (pos w) b in
      elim (sum-try_get now m w b modest' (omega arith)) [
        | inl (granted, covered, s, v) ↦
            let covered' = rw e at covered in
            let s' = rw e at s in
            (rw (granted, s') (omega int_laws), rw s' (omega int_laws), v, rw e at g, rw e at u)
        | inr (refused, short, same) ↦
            let same' = rw e at same in
            (
              rw (refused, same') (omega int_laws),
              rw same' (λ h. h),
              rw same' (IsModest-mono m (m + w) b (omega arith) modest),
              rw e at g,
              rw e at u,
            )
      ]

deposit_parts :
    (d now : ℕ) (b : Budget)
    → b.deposit_amount ≡ pos d
    → ((deposit now b).bucket ≡ put now (pos d) b.bucket)
      × ((deposit now b).deposit_amount ≡ b.deposit_amount)
      × ((deposit now b).withdraw_amount ≡ b.withdraw_amount)
unfolding deposit
deposit_parts d now b a = (ap (λ x. put now x b.bucket) a, refl, refl)

withdraw_parts :
    (w now : ℕ) (b : Budget)
    → b.withdraw_amount ≡ pos w
    → let (r, b') = withdraw now b in
      let (g, k) = try_get now (pos w) b.bucket in
      (granted r ≡ (if g then 1 else 0))
      × (b'.bucket ≡ k)
      × (b'.deposit_amount ≡ b.deposit_amount)
      × (b'.withdraw_amount ≡ b.withdraw_amount)
unfolding withdraw
withdraw_parts w now b a = rw (← a) (ground arith)

-- One operation on a budget with amounts d and w.
step-Keeps :
    (d w m now : ℕ) (op : Op) (b : Budget)
    → b.deposit_amount ≡ pos d
    → b.withdraw_amount ≡ pos w
    → IsModest m b.bucket
    → m + d + w ≤ 2 ^ 60
    → now - b.bucket.generation.time < b.bucket.window
    → Keeps d w (step now op b).0 (count_deposits ((now, op) ∷ [])) m b (step now op b).1
unfolding step
step-Keeps d w m now deposits b a p v room r =
    let (s, v', g, u) = put-recent d w m now b.bucket v room r in
    let (e, a', p') = deposit_parts d now b a in
    record {
      balance = rw (e, s) (omega int_laws);
      nonneg = rw (e, s) (omega int_laws);
      modest = rw e (IsModest-mono (m + d) (m + d + w) _ (omega arith) v');
      same = rw e g;
      window = rw e u;
      amount = a' ∙ a;
      price = p' ∙ p;
    }
step-Keeps d w m now withdraws b a p v room r =
    let (s, n, v', g, u) = try_get-recent d w m now b.bucket v room r in
    let (q, e, a', p') = withdraw_parts w now b p in
    record {
      balance = rw (e, q, s) (omega int_laws);
      nonneg = rw e n;
      modest = rw e (IsModest-mono (m + w) (m + d + w) _ (omega arith) v');
      same = rw e g;
      window = rw e u;
      amount = a' ∙ a;
      price = p' ∙ p;
    }

IsRecent-same :
    (b b' : Bucket) (es : List (ℕ × Op))
    → b'.generation ≡ b.generation
    → b'.window ≡ b.window
    → IsRecent b es
    → IsRecent b' es
IsRecent-same b b' [] g u r = tt
IsRecent-same b b' ((now, op) ∷ es) g u r = (rw (g, u) r.0, IsRecent-same b b' es g u r.1)

count_deposits-cons :
    (now : ℕ) (op : Op) (es : List (ℕ × Op))
    → count_deposits ((now, op) ∷ es) ≡ count_deposits ((now, op) ∷ []) + count_deposits es
count_deposits-cons now deposits es = omega arith
count_deposits-cons now withdraws es = omega arith

-- The amounts leave the counters far from the ends of `isize`.
run_both :
    (d w m : ℕ) (es : List (ℕ × Op)) (b : Budget)
    → b.deposit_amount ≡ pos d
    → b.withdraw_amount ≡ pos w
    → IsModest m b.bucket
    → m + length es * (d + w) ≤ 2 ^ 60
    → IsRecent b.bucket es
    → let (n, b') = run es b in
      (sum b'.bucket +ℤ pos (w * n) ≡ sum b.bucket +ℤ pos (d * count_deposits es))
      × (pos 0 ≤ℤ sum b.bucket → pos 0 ≤ℤ sum b'.bucket)
unfolding run
run_both d w m [] b a p v room r = (omega int_laws, λ h. h)
run_both d w m ((now, op) ∷ es) b a p v room r =
    let (g, b') = step now op b in
    let k = step-Keeps d w m now op b a p v (omega arith) r.0 in
    let (s, n) =
      run_both d w (m + d + w) es b' k.amount k.price k.modest (omega arith)
        (IsRecent-same b.bucket b'.bucket es k.same k.window r.1) in
    (
      rw (count_deposits-cons now op es) (
          omega
            (int_laws, ap pos_part s, ap neg_part s, ap pos_part k.balance, ap neg_part k.balance)),
      λ h. n (k.nonneg h),
    )

module _ (d w m : ℕ) (es : List (ℕ × Op)) (b : Budget) (deposit : b.deposit_amount ≡ pos d)
    (price : b.withdraw_amount ≡ pos w) (modest : IsModest m b.bucket)
    (room : m + length es * (d + w) ≤ 2 ^ 60) (recent : IsRecent b.bucket es) where
  -- For deposits and withdrawals within one window, with amounts that leave the counters far from
  -- the ends of `isize`, the price of the withdrawals that were granted, with the balance at the
  -- end, is the balance at the start with all deposits.
  pub run-balance :
      let (n, b') = run es b in
      sum b'.bucket +ℤ pos (w * n) ≡ sum b.bucket +ℤ pos (d * count_deposits es)
  run-balance = (run_both d w m es b deposit price modest room recent).0

  -- For deposits and withdrawals within one window, with amounts that leave the counters far from
  -- the ends of `isize`, a balance that is not negative at the start is not negative at the end.
  run_nonneg : pos 0 ≤ℤ sum b.bucket → let (n, b') = run es b in pos 0 ≤ℤ sum b'.bucket
  run_nonneg h = (run_both d w m es b deposit price modest room recent).1 h
