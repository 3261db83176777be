-- ===== src/Utils/Unreachable.antt =====
-- OnBaseUnreachable of common/utils/utils.go, over the client of the API server and the log.
use module_controller.Prelude.{
  String, Bool, true, false, ◌≡◌, refl, sym, ap, ◌∙◌, not, Option, none, some, if◌then◌else◌,
}
use module_controller.Go.Effect.{Error, not_found}

-- What the function calls, on the state `W` of everything outside.
pub record NodeClient (W : Type 0) : Type 0 where
  -- client.Get of a node: none is a nil error
  pub get : String → W → Option Error × W
  -- client.Delete
  pub delete : String → W → Option Error × W
  pub log_info : String → W → W
  pub log_error : Error → String → W → W

-- apierrors.IsNotFound, false on nil.
abbrev pub is_not_found : Option Error → Bool
is_not_found (some (not_found s)) = true
is_not_found _ = false

module _ {W : Type 0} (k8s : NodeClient W) where
  -- `err` is the error of Get, which the test after Delete asks again.
  after_delete : Option Error → Option Error × W → W
  after_delete err (none, w) = w
  after_delete err (some delete_err, w) =
      if not (is_not_found err) then k8s.log_error delete_err "delete base node failed" w else w

  after_get : String → Option Error × W → W
  after_get name (none, w) = after_delete none (k8s.delete name (k8s.log_info "DeleteBaseNode" w))
  after_get name (some err, w) =
      if is_not_found (some err)
      then k8s.log_info "Node not found, skipping delete operation" w
      else k8s.log_error err "Failed to get node, cannot delete" w

  unfoldable pub on_base_unreachable : String → W → W
  unfolding after_delete after_get
  on_base_unreachable node_name w = after_get node_name (k8s.get node_name w)

  -- The ways in which a cleanup can go, each with the world that it leaves.
  pub data Cleanup (name : String) (w w' : W) : Type 0 where
    deleted :
        (k8s.get name w).0 ≡ none
        → (found : W) → found ≡ k8s.log_info "DeleteBaseNode" (k8s.get name w).1
        → (k8s.delete name found).0 ≡ none
        → w' ≡ (k8s.delete name found).1
        → Cleanup name w w'
    delete_failed :
        (e : Error) (found : W)
        → (k8s.get name w).0 ≡ none
        → found ≡ k8s.log_info "DeleteBaseNode" (k8s.get name w).1
        → (k8s.delete name found).0 ≡ some e
        → w' ≡ k8s.log_error e "delete base node failed" (k8s.delete name found).1
        → Cleanup name w w'
    absent :
        (reason : String)
        → (k8s.get name w).0 ≡ some (not_found reason)
        → w' ≡ k8s.log_info "Node not found, skipping delete operation" (k8s.get name w).1
        → Cleanup name w w'
    unreadable :
        (e : Error)
        → (k8s.get name w).0 ≡ some e
        → is_not_found (some e) ≡ false
        → w' ≡ k8s.log_error e "Failed to get node, cannot delete" (k8s.get name w).1
        → Cleanup name w w'

  after_delete-Cleanup :
      (name : String) (w seen : W) (r : Option Error × W)
      → k8s.get name w ≡ (none, seen)
      → k8s.delete name (k8s.log_info "DeleteBaseNode" seen) ≡ r
      → Cleanup name w (after_delete none r)
  unfolding after_delete
  after_delete-Cleanup name w seen (none, w') g d =
      deleted (ap (λ t. t.0) g) (k8s.log_info "DeleteBaseNode" seen)
        (sym (ap (λ t. k8s.log_info "DeleteBaseNode" t.1) g)) (ap (λ t. t.0) d)
        (sym (ap (λ t. t.1) d))
  after_delete-Cleanup name w seen (some e, w') g d =
      delete_failed e (k8s.log_info "DeleteBaseNode" seen) (ap (λ t. t.0) g)
        (sym (ap (λ t. k8s.log_info "DeleteBaseNode" t.1) g)) (ap (λ t. t.0) d)
        (sym (ap (λ t. k8s.log_error e "delete base node failed" t.1) d))

  after_get-Cleanup :
      (name : String) (w : W) (r : Option Error × W)
      → k8s.get name w ≡ r
      → Cleanup name w (after_get name r)
  unfolding after_get
  after_get-Cleanup name w (none, w') g = after_delete-Cleanup name w w' _ g refl
  after_get-Cleanup name w (some (not_found reason), w') g =
      absent reason (ap (λ t. t.0) g)
        (sym (ap (λ t. k8s.log_info "Node not found, skipping delete operation" t.1) g))
  after_get-Cleanup name w (some e, w') g =
      unreadable e (ap (λ t. t.0) g) refl
        (sym (ap (λ t. k8s.log_error e "Failed to get node, cannot delete" t.1) g))

  -- A base that became unreachable has its node deleted exactly if Get found it. A failed Delete is
  -- logged as an error whatever the failure is; if Get failed nothing is deleted, and a missing node
  -- is logged as information, any other failure as an error.
  pub on_base_unreachable-Cleanup :
      (name : String) (w : W) → Cleanup name w (on_base_unreachable name w)
  unfolding on_base_unreachable
  on_base_unreachable-Cleanup name w = after_get-Cleanup name w (k8s.get name w) refl

  after_get_found :
      (name : String) (r : Option Error × W)
      → r.0 ≡ none
      → after_get name r ≡ after_delete none (k8s.delete name (k8s.log_info "DeleteBaseNode" r.1))
  unfolding after_get
  after_get_found name (none, w) h = refl
  after_get_found name (some e, w) h = cc

  after_delete_failed :
      (e : Error) (r : Option Error × W)
      → r.0 ≡ some e
      → after_delete none r ≡ k8s.log_error e "delete base node failed" r.1
  unfolding after_delete
  after_delete_failed e (none, w) h = cc
  after_delete_failed e (some e', w) h = cc

  -- A node that is gone when Delete runs, after Get had found it, is logged as an error: the test
  -- after Delete asks the error of Get.
  pub vanished_node_logged :
      (name reason : String) (w : W)
      → (k8s.get name w).0 ≡ none
      → (k8s.delete name (k8s.log_info "DeleteBaseNode" (k8s.get name w).1)).0
        ≡ some (not_found reason)
      → on_base_unreachable name w
        ≡ k8s.log_error
            (not_found reason)
            "delete base node failed"
            (k8s.delete name (k8s.log_info "DeleteBaseNode" (k8s.get name w).1)).1
  unfolding on_base_unreachable
  vanished_node_logged name reason w g d =
      after_get_found name (k8s.get name w) g ∙ after_delete_failed (not_found reason) _ d
