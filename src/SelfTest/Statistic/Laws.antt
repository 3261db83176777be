-- ===== src/SelfTest/Statistic/Laws.antt =====
-- What statistic computes, and when it divides by zero.
use native.Mathlib.Nat.{mul-le-mul_right, div-le_of_le-mul, le-div_iff_mul-le}
use module_controller.Prelude.{
  ℕ, zero, suc, ◌+◌, ◌-◌, ◌*◌, ◌^◌, ◌/◌, ◌≤◌, ◌<◌, ◌≡◌, ◌∙◌, refl, ap, arith, String, Bool, true,
  false, Option, none, some, List, [], ◌∷◌, if◌then◌else◌, lookup, Option-cases, length, filter,
  All, ltb, ◌↔◌, ◌⊎◌, inl, inr,
}
use module_controller.Prelude.Int.{ℤ, pos, negsuc, ◌+ℤ◌, ◌≤ℤ◌, int64}
use module_controller.Go.Effect.{Outcome, returns, panics}
use module_controller.SelfTest.{Times}
use module_controller.SelfTest.Statistic.{
  TestResult, Counters, no_counters, counted, quotient, with_create_time, count_entries, result_of,
  statistic,
}

-- Counters that are natural numbers, the total between the least and the greatest times the count.
record Measures (c : Counters) : Type 0 where
  least : ℕ
  greatest : ℕ
  total : ℕ
  is_least : c.min_millis ≡ pos least
  is_greatest : c.max_millis ≡ pos greatest
  is_total : c.total_millis ≡ pos total
  above : least * c.total_valid_num ≤ total
  below : total ≤ greatest * c.total_valid_num
  small : total ≤ 6000000 * c.total_valid_num

added : (s c : ℕ) → s + c < 2 ^ 63 → int64 (pos s +ℤ pos c) ≡ pos (s + c)
unfolding int64 ◌+ℤ◌
added s c h = ground arith

-- The lesser and the greater of the new time and the old one.
abbrev lesser : ℕ → ℕ → ℕ
lesser cost a = if ltb cost a then cost else a

abbrev greater : ℕ → ℕ → ℕ
greater cost b = if ltb b cost then cost else b

lesser-le : (cost a : ℕ) → (lesser cost a ≤ cost) × (lesser cost a ≤ a)
lesser-le cost a = (ground arith, ground arith)

greater-ge : (cost b : ℕ) → (cost ≤ greater cost b) × (b ≤ greater cost b)
greater-ge cost b = (ground arith, ground arith)

counted-Measures :
    (cost : ℕ) (c : Counters)
    → cost ≤ 6000000
    → c.total_valid_num < 2 ^ 40
    → Measures c
    → Measures (counted (pos cost) c)
unfolding counted
counted-Measures cost c small few m =
    let (l, l') = lesser-le cost m.least in
    let (g, g') = greater-ge cost m.greatest in
    record {
      least = lesser cost m.least;
      greatest = greater cost m.greatest;
      total = m.total + cost;
      is_least = rw m.is_least (ground arith);
      is_greatest = rw m.is_greatest (ground arith);
      is_total = rw m.is_total (added m.total cost (omega (arith, m.small)));
      above = omega (arith, m.above, mul-le-mul_right c.total_valid_num l', l);
      below = omega (arith, m.below, mul-le-mul_right c.total_valid_num g', g);
      small = omega (arith, m.small);
    }

abbrev is_some : Option ℤ → Bool
is_some none = false
is_some (some t) = true

-- How many of the entries have a time of creation.
abbrev pub count_valid : List (String × ℤ) → List (String × ℤ) → ℕ
count_valid created ready = length (filter (λ entry. is_some (lookup entry.0 created)) ready)

-- The least is at most the average, and the average at most the greatest.
abbrev pub IsOrdered : TestResult → Type 0
IsOrdered r =
    (r.pod_min ≤ℤ r.pod_avg)
    × (r.pod_avg ≤ℤ r.pod_max)
    × (r.deploy_min ≤ℤ r.deploy_avg)
    × (r.deploy_avg ≤ℤ r.deploy_max)

module _ (millis : ℤ → ℤ → ℤ) where
  -- Every entry that has a time of creation took between 0 and 100 minutes.
  abbrev pub Timed : List (String × ℤ) → List (String × ℤ) → Type 0
  Timed created ready =
      All
        (λ entry.
          (create_time : ℤ)
          → lookup entry.0 created ≡ some create_time
          → (cost : ℕ) × (millis entry.1 create_time ≡ pos cost) × (cost ≤ 6000000))
        ready

  count_entries-cons :
      (created rest : List (String × ℤ)) (name : String) (ready_time : ℤ) (c : Counters)
      (o : Option ℤ)
      → lookup name created ≡ o
      → count_entries millis created ((name, ready_time) ∷ rest) c
        ≡ count_entries millis created rest (with_create_time millis ready_time o c)
  unfolding count_entries
  count_entries-cons created rest name ready_time c o e =
      ap (λ x. count_entries millis created rest (with_create_time millis ready_time x c)) e

  total_valid_num-count_valid :
      (created ready : List (String × ℤ)) (c : Counters)
      → (count_entries millis created ready c).total_valid_num
        ≡ c.total_valid_num + count_valid created ready
  unfolding count_entries with_create_time counted
  total_valid_num-count_valid created [] c = omega arith
  total_valid_num-count_valid created ((name, ready_time) ∷ rest) c =
      elim (Option-cases (lookup name created)) [
        | inl absent ↦
            ap (λ (k : Counters). k.total_valid_num)
              (count_entries-cons created rest name ready_time c none absent)
            ∙ rw absent (total_valid_num-count_valid created rest c)
        | inr (t, found) ↦
            ap (λ (k : Counters). k.total_valid_num)
              (count_entries-cons created rest name ready_time c (some t) found)
            ∙ rw found (
                omega (
                  arith,
                  total_valid_num-count_valid created rest (counted (millis ready_time t) c),
                ))
      ]

  count_entries-Measures :
      (created ready : List (String × ℤ)) (c : Counters)
      → Timed created ready
      → c.total_valid_num + length ready < 2 ^ 40
      → Measures c
      → Measures (count_entries millis created ready c)
  unfolding count_entries with_create_time
  count_entries-Measures created [] c t few m = m
  count_entries-Measures created ((name, ready_time) ∷ rest) c (t, ts) few m =
      elim (Option-cases (lookup name created)) [
        | inl absent ↦ rw absent (count_entries-Measures created rest c ts (omega (arith, few)) m)
        | inr (create_time, found) ↦
            let (cost, same, small) = t create_time found in
            rw (found, same)
              (count_entries-Measures created rest (counted (pos cost) c) ts (omega (arith, few))
                (counted-Measures cost c small (omega (arith, few)) m))
      ]

  record HasAverage (c : Counters) : Type 0 where
    average : ℤ
    divided : quotient c.total_millis c.total_valid_num ≡ returns average
    at_least : c.min_millis ≤ℤ average
    at_most : average ≤ℤ c.max_millis

  average_of : (c : Counters) (n : ℕ) → c.total_valid_num ≡ suc n → Measures c → HasAverage c
  unfolding quotient
  average_of c n e m =
      let above : m.least * suc n ≤ m.total = rw⁻¹ e m.above in
      let below : m.total ≤ suc n * m.greatest =
        omega (arith, m.below, ap (λ k. m.greatest * k) e) in
      record {
        average = pos (m.total / suc n);
        divided = rw (e, m.is_total) refl;
        at_least = rw m.is_least omega (
          arith,
          (le-div_iff_mul-le {k = suc n} {x = m.least} {y = m.total} (omega arith)).1 above,
        );
        at_most = rw m.is_greatest omega (arith, div-le_of_le-mul (suc n) below);
      }

  quotient-panics_iff : (n : ℤ) (d : ℕ) → (quotient n d ≡ panics) ↔ (d ≡ 0)
  unfolding quotient
  quotient-panics_iff n zero = (λ e. refl, λ e. refl)
  quotient-panics_iff (pos n) (suc d) = (λ e. cc, λ e. absurd (omega (arith, e)))
  quotient-panics_iff (negsuc n) (suc d) = (λ e. cc, λ e. absurd (omega (arith, e)))

  result_of-panics_iff :
      (a b : Counters) (x y : Outcome ℤ)
      → (result_of millis a b x y ≡ panics) ↔ ((x ≡ panics) ⊎ (y ≡ panics))
  result_of-panics_iff a b (returns x) (returns y) = (λ e. cc, elim [ inl e ↦ cc | inr e ↦ cc ])
  result_of-panics_iff a b panics y = (λ e. inl refl, λ e. refl)
  result_of-panics_iff a b (returns x) panics = (λ e. inr refl, λ e. refl)

  abbrev counters_of : List (String × ℤ) → List (String × ℤ) → Counters
  counters_of created ready = count_entries millis created ready no_counters

  quotient-count_valid :
      (created ready : List (String × ℤ))
      → let c = counters_of created ready in
        (quotient c.total_millis c.total_valid_num ≡ panics) ↔ (count_valid created ready ≡ 0)
  quotient-count_valid created ready =
      let c = counters_of created ready in
      let (there, back) = quotient-panics_iff c.total_millis c.total_valid_num in
      let same = total_valid_num-count_valid created ready no_counters in
      (λ e. omega (arith, same, there e), λ e. back (omega (arith, same, e)))

  -- statistic panics, by a division by zero, exactly if no pod that was ready or no deployment that
  -- was ready has a time of creation.
  pub statistic-panics_iff :
      (t : Times)
      → (statistic millis t ≡ panics) ↔ (
          (count_valid t.pod_name_to_create_time t.pod_name_to_ready_time ≡ 0)
          ⊎ (count_valid t.deployment_name_to_create_time t.deployment_name_to_ready_time ≡ 0))
  unfolding statistic
  statistic-panics_iff t =
      let pods = quotient-count_valid t.pod_name_to_create_time t.pod_name_to_ready_time in
      let deployments =
        quotient-count_valid t.deployment_name_to_create_time t.deployment_name_to_ready_time in
      let (there, back) =
        result_of-panics_iff (counters_of t.pod_name_to_create_time t.pod_name_to_ready_time)
          (counters_of t.deployment_name_to_create_time t.deployment_name_to_ready_time) _ _ in
      (
        λ e. elim (there e) [ inl x ↦ inl (pods.0 x) | inr y ↦ inr (deployments.0 y) ],
        λ s. back (elim s [ inl x ↦ inl (pods.1 x) | inr y ↦ inr (deployments.1 y) ]),
      )

  counters_of-HasAverage :
      (created ready : List (String × ℤ))
      → Timed created ready
      → length ready < 2 ^ 40
      → 0 < count_valid created ready
      → HasAverage (counters_of created ready)
  counters_of-HasAverage created ready t few some_valid =
      let c = counters_of created ready in
      let start : Measures no_counters = record {
        least = 6000000;
        greatest = 0;
        total = 0;
        is_least = refl;
        is_greatest = refl;
        is_total = refl;
        above = omega arith;
        below = omega arith;
        small = omega arith;
      } in
      average_of c (count_valid created ready - 1)
        (omega (arith, total_valid_num-count_valid created ready no_counters))
        (count_entries-Measures created ready no_counters t (omega arith) start)

  -- If a ready pod and a ready deployment have a time of creation, and each that has one was ready
  -- within 100 minutes of it, statistic returns, and the average is between the least and the
  -- greatest time, for the pods and for the deployments. There must be fewer than 2 ^ 40 of each.
  pub statistic-IsOrdered :
      (t : Times)
      → Timed t.pod_name_to_create_time t.pod_name_to_ready_time
      → Timed t.deployment_name_to_create_time t.deployment_name_to_ready_time
      → length t.pod_name_to_ready_time < 2 ^ 40
      → length t.deployment_name_to_ready_time < 2 ^ 40
      → 0 < count_valid t.pod_name_to_create_time t.pod_name_to_ready_time
      → 0 < count_valid t.deployment_name_to_create_time t.deployment_name_to_ready_time
      → (r : TestResult) × (statistic millis t ≡ returns r) × IsOrdered r
  unfolding statistic
  statistic-IsOrdered t timed timed' few few' v v' =
      let pods = counters_of t.pod_name_to_create_time t.pod_name_to_ready_time in
      let deployments =
        counters_of t.deployment_name_to_create_time t.deployment_name_to_ready_time in
      let a =
        counters_of-HasAverage t.pod_name_to_create_time t.pod_name_to_ready_time timed few v in
      let b =
        counters_of-HasAverage t.deployment_name_to_create_time t.deployment_name_to_ready_time
          timed' few' v' in
      (
        _,
        ap
              (λ x.
                result_of millis pods deployments x
                  (quotient deployments.total_millis deployments.total_valid_num))
              a.divided
            ∙ ap (result_of millis pods deployments (returns a.average)) b.divided,
        (a.at_least, a.at_most, b.at_least, b.at_most),
      )
