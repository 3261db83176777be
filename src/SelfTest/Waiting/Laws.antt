-- ===== src/SelfTest/Waiting/Laws.antt =====
-- How long the loops of the pressure test run, and what holds when they end.
use module_controller.Prelude.{
  ℕ, zero, suc, ◌≤◌, ◌<◌, ◌≡◌, ◌∙◌, refl, ap, sym, arith, Bool, true, false, Option, none, some,
  List, if◌then◌else◌, Bool-cases, inl, inr,
}
use module_controller.Prelude.Int.{ℤ, pos, eqb_ℤ, eqb_ℤ_iff}
use module_controller.Go.Effect.{Error, Result, ok, err}
use module_controller.Platform.{Platform}
use module_controller.Platform.Kube.{Deployment, Node}
use module_controller.SelfTest.Waiting.{
  Client, count_ready, poll, wait_ready, has_replicas, after_update, after_get, update_replicas,
}

module _ (p : Platform) {W : Type 0} (k8s : Client W) where
  -- The world before the poll with this number, and whether that poll finds what is waited for.
  abbrev pub polled : ℤ → ℕ → W → W
  polled r zero w = w
  polled r (suc n) w = polled r n (poll p k8s r (k8s.list_nodes w)).1

  abbrev pub IsReadyAt : ℤ → ℕ → W → Type 0
  IsReadyAt r n w = (poll p k8s r (k8s.list_nodes (polled r n w))).0 ≡ true

  -- A poll that is content got a list of nodes in which the wanted number is ready.
  poll-count_ready :
      (r : ℤ) (answer : Result (List Node) × W)
      → (poll p k8s r answer).0 ≡ true
      → (nodes : List Node) × (answer.0 ≡ ok nodes)
        × (pos (count_ready p k8s nodes) ≡ r)
        × ((poll p k8s r answer).1 ≡ answer.1)
  unfolding poll
  poll-count_ready r (err e, w) h = cc
  poll-count_ready r (ok nodes, w) h = elim (Bool-cases (eqb_ℤ (pos (count_ready p k8s nodes)) r)) [
    | inl same ↦ (nodes, refl, (eqb_ℤ_iff _ _).0 same, rw same refl)
    | inr other ↦
        let no : false ≡ true =
          sym (
            ap
              (λ b.
                let answer : Bool × W = if b then (true, w) else (false, k8s.sleep 2 w) in answer.0)
              other)
          ∙ h in
        cc
  ]

  -- The wait for the vnodes ends after the first poll that finds as many ready vnodes as wanted.
  record Waited (r : ℤ) (n : ℕ) (w : W) (o : Option (Option Error × W)) : Type 0 where
    round : ℕ
    not_later : round ≤ n
    last : W
    ended : o ≡ some (none, last)
    nodes : List Node
    listed : k8s.list_nodes (polled r round w) ≡ (ok nodes, last)
    wanted : pos (count_ready p k8s nodes) ≡ r

  -- The loop ends with a poll that is content.
  ends_now :
      (fuel : ℕ) (r : ℤ) (n : ℕ) (w : W)
      → IsReadyAt r 0 w
      → Waited r n w (wait_ready p k8s (suc fuel) r w)
  unfolding wait_ready
  ends_now fuel r n w h =
      let (nodes, listed, wanted, same) = poll-count_ready r (k8s.list_nodes w) h in
      record {
        round = 0;
        not_later = omega arith;
        last = (poll p k8s r (k8s.list_nodes w)).1;
        ended = rw h refl;
        nodes = nodes;
        listed = ap (λ a. (a, (k8s.list_nodes w).1)) listed ∙ ap (λ l. (ok nodes, l)) (sym same);
        wanted = wanted;
      }

  goes_on :
      (fuel : ℕ) (r : ℤ) (n : ℕ) (w : W)
      → (poll p k8s r (k8s.list_nodes w)).0 ≡ false
      → Waited r n (polled r 1 w) (wait_ready p k8s fuel r (polled r 1 w))
      → Waited r (suc n) w (wait_ready p k8s (suc fuel) r w)
  unfolding wait_ready
  goes_on fuel r n w h t = record {
    round = suc t.round;
    not_later = omega (arith, t.not_later);
    last = t.last;
    ended =
        ap
          (λ b.
            if b
            then some (none, (poll p k8s r (k8s.list_nodes w)).1)
            else wait_ready p k8s fuel r (poll p k8s r (k8s.list_nodes w)).1)
          h
        ∙ t.ended;
    nodes = t.nodes;
    listed = t.listed;
    wanted = t.wanted;
  }

  wait_ready-Waited :
      (fuel : ℕ) (r : ℤ) (n : ℕ) (w : W)
      → n < fuel
      → IsReadyAt r n w
      → Waited r n w (wait_ready p k8s fuel r w)
  wait_ready-Waited zero r n w l h = absurd (omega (arith, l))
  wait_ready-Waited (suc fuel) r zero w l h = ends_now fuel r zero w h
  wait_ready-Waited (suc fuel) r (suc n) w l h =
      elim (Bool-cases (poll p k8s r (k8s.list_nodes w)).0) [
        | inl now ↦ ends_now fuel r (suc n) w now
        | inr later ↦
            goes_on fuel r n w later
              (wait_ready-Waited fuel r n (polled r 1 w) (omega (arith, l)) h)
      ]

  -- The ways in which updateReplicas comes to its wait, with the world in which it does.
  pub data Scaled (r : ℤ) (w : W) : W → Type 0 where
    unread : (e : Error) (w' : W) → k8s.get_base w ≡ (err e, w') → Scaled r w w'
    updated :
        (d : Deployment) (read w' : W)
        → k8s.get_base w ≡ (ok d, read)
        → has_replicas d.replicas r ≡ false
        → k8s.update (record d { replicas = some r }) read ≡ (none, w')
        → Scaled r w w'

  scaled-waits :
      (fuel : ℕ) (r : ℤ) (w w' : W)
      → Scaled r w w'
      → update_replicas p k8s fuel r w ≡ wait_ready p k8s fuel r w'
  unfolding update_replicas after_get after_update
  scaled-waits fuel r w _ (unread e w' g) = ap (after_get p k8s fuel r) g
  scaled-waits fuel r w _ (updated d read w' g h u) =
      ap (after_get p k8s fuel r) g
      ∙ ap
          (λ b.
            if b
            then some (none, read)
            else after_update p k8s fuel r (k8s.update (record d { replicas = some r }) read))
          h
      ∙ ap (after_update p k8s fuel r) u

  -- Once updateReplicas has changed the number of bases, or could not read it, it waits, and
  -- returns no error after the first poll that finds as many ready vnodes as wanted: at the latest
  -- the poll `n` if that one does, with fuel above `n`. The last list that it gets has that number.
  pub update_replicas-waits :
      (fuel : ℕ) (r : ℤ) (w w' : W) (n : ℕ)
      → Scaled r w w'
      → n < fuel
      → IsReadyAt r n w'
      → (round : ℕ) × (round ≤ n)
        × (last : W) × (update_replicas p k8s fuel r w ≡ some (none, last))
        × (nodes : List Node) × (k8s.list_nodes (polled r round w') ≡ (ok nodes, last))
        × (pos (count_ready p k8s nodes) ≡ r)
  update_replicas-waits fuel r w w' n s l h =
      let t = wait_ready-Waited fuel r n w' l h in
      (
        t.round,
        t.not_later,
        t.last,
        scaled-waits fuel r w w' s ∙ t.ended,
        t.nodes,
        t.listed,
        t.wanted,
      )
