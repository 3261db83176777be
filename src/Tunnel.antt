-- ===== src/Tunnel.antt =====
-- The interface of virtual-kubelet's tunnel package: the callbacks through which a tunnel reports to
-- the virtual kubelet. Each acts on the state `W` of everything outside; a nil callback is none.
use module_controller.Prelude.{String, Option, none, some, List}
use module_controller.Go.Effect.{Go, returns, panics}
use module_controller.Platform.Vnode.{NodeInfo, NodeStatusData, BizStatusData}

pub record Callbacks (W : Type 0) : Type 0 where
  pub on_base_discovered : Option (NodeInfo → W → W)
  pub on_base_status_arrived : Option (String → NodeStatusData → W → W)
  pub on_all_biz_status_arrived : Option (String → List BizStatusData → W → W)
  pub on_single_biz_status_arrived : Option (String → BizStatusData → W → W)

-- Before RegisterCallback.
abbrev pub no_callbacks : {W : Type 0} → Callbacks W
no_callbacks = record {
  on_base_discovered = none;
  on_base_status_arrived = none;
  on_all_biz_status_arrived = none;
  on_single_biz_status_arrived = none;
}

module _ {W A B : Type 0} where
  -- A call through a field that may be nil: with the test `!= nil` before it, and without.
  abbrev pub call_if_set_both : Option (A → B → W → W) → A → B → Go W Unit
  call_if_set_both none a b w = (returns tt, w)
  call_if_set_both (some f) a b w = (returns tt, f a b w)

  abbrev pub call_both : Option (A → B → W → W) → A → B → Go W Unit
  call_both none a b w = (panics, w)
  call_both (some f) a b w = (returns tt, f a b w)

module _ {W A : Type 0} where
  abbrev pub call_if_set : Option (A → W → W) → A → Go W Unit
  call_if_set none a w = (returns tt, w)
  call_if_set (some f) a w = (returns tt, f a w)

  abbrev pub call : Option (A → W → W) → A → Go W Unit
  call none a w = (panics, w)
  call (some f) a w = (returns tt, f a w)
