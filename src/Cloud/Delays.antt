-- ===== src/Cloud/Delays.antt =====
-- The delays between two attempts, and the waits that are made of them.
use ubuntu_daemon.Base.{
  ℕ, zero, suc, refl, ◌+◌, ◌*◌, ◌^◌, ◌≤◌, ◌<◌, ◌≡◌, List, [], ◌∷◌, arith, ltb, All, Bool-cases, inl,
  inr,
}
use ubuntu_daemon.Base.Int.{ℤ, pos, ◌≤ℤ◌, mul64, mul64_exact}
use ubuntu_daemon.Config.{CloudConfig, second, reconnect_min, reconnect_max}
use ubuntu_daemon.Config.Laws.Normal.{CloudIsBounded}
use ubuntu_daemon.Cloud.{
  Attempt, cancelled_inside, cancelled_waiting, waited, with_jitter, next_backoff, run_from, run,
}

-- From one delay to the next.
abbrev pub Grows : ℤ → List (ℤ × ℤ) → Type 0
Grows low [] = Unit
Grows low ((backoff, wait) ∷ rest) = (low ≤ℤ backoff) × Grows backoff rest

Grows-from : (b m : ℕ) (ds : List (ℤ × ℤ)) → b ≤ m → Grows (pos m) ds → Grows (pos b) ds
Grows-from b m [] le h = tt
Grows-from b m ((d, wait) ∷ ds) le (l, h) = (omega arith, h)

next_backoff_pos :
    (cfg : CloudConfig) (high b : ℕ)
    → reconnect_max cfg ≡ pos high
    → high < 2 ^ 62
    → b ≤ high
    → (m : ℕ) × (next_backoff cfg (pos b) ≡ pos m) × (b ≤ m) × (m ≤ high)
unfolding next_backoff
next_backoff_pos cfg high b e wide h =
    let doubled : mul64 (pos b) 2 ≡ pos (b * 2) = mul64_exact b 2 (omega arith) in
    elim (Bool-cases (ltb high (b * 2))) [
      | inl above ↦ (high, rw (e, doubled, next_backoff) (ground arith), h, ground arith)
      | inr below ↦ (b * 2, rw (e, doubled, next_backoff) (ground arith), omega arith, ground arith)
    ]

-- The factor of a wait lies between 1.2 and 1.4, up to a nanosecond for the rounding; `most` is the
-- longest delay that it is asked for.
abbrev pub IsStretch : ℕ → (ℕ → ℕ) → Type 0
IsStretch most stretch =
    (n : ℕ) → n ≤ most → (6 * n ≤ 5 * stretch n + 5) × (5 * stretch n ≤ 7 * n + 5)

abbrev pub Stretches : ℕ → Attempt → Type 0
Stretches most cancelled_inside = Unit
Stretches most (cancelled_waiting stretch) = IsStretch most stretch
Stretches most (waited stretch) = IsStretch most stretch

-- The delay between the limits, and the wait that is made of it.
abbrev pub Within : ℕ → ℕ → ℤ × ℤ → Type 0
Within low high d =
    (pos low ≤ℤ d.0)
    × (d.0 ≤ℤ pos high)
    × ((wait : ℕ) × (d.1 ≡ pos wait) × (6 * low ≤ 5 * wait + 5) × (5 * wait ≤ 7 * high + 5))

with_jitter-Within :
    (low high b : ℕ) (stretch : ℕ → ℕ)
    → IsStretch high stretch
    → 0 < low
    → low ≤ b
    → b ≤ high
    → Within low high (pos b, with_jitter stretch (pos b))
unfolding with_jitter
with_jitter-Within low high zero stretch h p l u = absurd (omega arith)
with_jitter-Within low high (suc n) stretch h p l u =
    let (down, up) = h (suc n) u in
    (omega arith, omega arith, (stretch (suc n), refl, omega arith, omega arith))

run_from_lem :
    (cfg : CloudConfig) (low high b : ℕ) (attempts : List Attempt)
    → reconnect_max cfg ≡ pos high
    → high < 2 ^ 62
    → 0 < low
    → low ≤ b
    → b ≤ high
    → All (Stretches high) attempts
    → All (Within low high) (run_from cfg (pos b) attempts)
      × Grows (pos b) (run_from cfg (pos b) attempts)
unfolding run_from
run_from_lem cfg low high b [] e wide p l u h = (tt, tt)
run_from_lem cfg low high b (cancelled_inside ∷ attempts) e wide p l u h = (tt, tt)
run_from_lem cfg low high b (cancelled_waiting stretch ∷ attempts) e wide p l u (f, h) =
    ((with_jitter-Within low high b stretch f p l u, tt), (omega arith, tt))
run_from_lem cfg low high b (waited stretch ∷ attempts) e wide p l u (f, h) =
    let (m, next, up, top) = next_backoff_pos cfg high b e wide u in
    let (within, grows) = run_from_lem cfg low high m attempts e wide p (omega arith) top h in
    rw next (
      (with_jitter-Within low high b stretch f p l u, within),
      (omega arith, Grows-from b m (run_from cfg (pos m) attempts) up grows),
    )

-- With limits that `normalize` gives and that are below 2^32 seconds, and with random factors from
-- 1.2 to 1.4: every delay of the loop before its factor lies between the minimum and the maximum,
-- and none is shorter than the one before; every wait is at least 1.2 times the minimum and at most
-- 1.4 times the maximum, up to a nanosecond; whatever the attempts end by.
pub run_lem :
    (cfg : CloudConfig) (low high : ℕ) (attempts : List Attempt)
    → CloudIsBounded cfg
    → cfg.reconnect_min_sec ≡ pos low
    → cfg.reconnect_max_sec ≡ pos high
    → high < 2 ^ 32
    → All (Stretches (high * second)) attempts
    → All (Within (low * second) (high * second)) (run cfg attempts)
      × Grows (pos (low * second)) (run cfg attempts)
unfolding run reconnect_min reconnect_max
run_lem cfg low high attempts h l e wide factors =
    let ordered : low ≤ high = omega (arith, rw (l, e) at h.ordered) in
    let some_delay : 0 < low = omega (arith, rw l at h.reconnect) in
    let least : reconnect_min cfg ≡ pos (low * second) =
      rw l (mul64_exact low second (omega arith)) in
    let most : reconnect_max cfg ≡ pos (high * second) =
      rw e (mul64_exact high second (omega arith)) in
    rw least (
      run_from_lem cfg (low * second) (high * second) (low * second) attempts most (omega arith)
        (omega arith) (omega arith) (omega arith) factors)
