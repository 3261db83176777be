-- ===== src/Utils/Topics.antt =====
-- The topics of a base and the identities of a biz.
use text.Mathlib.TextLemmas.{nil-append, cons-append, append_assoc, append_cancel_left}
use mathlib.Core.List
use mathlib.Core.List.{cons-eq-cons}
use module_controller.Prelude.{String, ◌≡◌, ◌∙◌, sym, ap, arith, ◌<>◌}
use module_controller.Go.Strings.{split}
use module_controller.Go.Strings.Split.{Lacks, Lacks-append, split-append}
use module_controller.Utils.{
  get_base_identity_from_topic, format_arklet_command_topic, format_baseline_response_topic,
  get_biz_identity,
}
use module_controller.Model.{
  base_health_topic, base_simple_biz_topic, base_all_biz_topic, base_biz_operation_response_topic,
  base_batch_install_biz_response_topic,
}

-- The text has no slash.
abbrev pub NoSlash : String → Type 0
NoSlash s = Lacks b'/' s

-- The text has no colon.
abbrev pub NoColon : String → Type 0
NoColon s = Lacks b':' s

split_at_slash : (s t : String) → NoSlash s → split b'/' (s <> "/" <> t) ≡ List.◌∷◌ s (split b'/' t)
split_at_slash s t h = rw cons-append (rw nil-append (split-append "/" s t h))

NoSlash-prefix : NoSlash "koupleless_"
NoSlash-prefix = omega arith

identity_of_parts :
    (env node_id rest : String)
    → NoSlash env
    → NoSlash node_id
    → get_base_identity_from_topic ("koupleless_" <> env <> "/" <> node_id <> "/" <> rest) ≡ node_id
unfolding get_base_identity_from_topic
identity_of_parts env node_id rest h k =
    rw (← append_assoc "koupleless_" env ("/" <> node_id <> "/" <> rest)) (
      rw (
        split_at_slash ("koupleless_" <> env) (node_id <> "/" <> rest)
            (Lacks-append b'/' "koupleless_" env NoSlash-prefix h),
        split_at_slash node_id rest k,
      ))

-- A command topic that is formatted for a node names that node, whatever the command, as long as
-- neither the environment nor the node's ID has a slash.
pub identity-command_topic :
    (env node_id command : String)
    → NoSlash env
    → NoSlash node_id
    → get_base_identity_from_topic (format_arklet_command_topic env node_id command) ≡ node_id
identity-command_topic env node_id command h k = identity_of_parts env node_id command h k

-- The topics that a registered node is subscribed to, and the topic that a baseline is published
-- to, name the node, as long as neither the environment nor the node's ID has a slash.
pub identity-node_topics :
    (env node_id : String)
    → NoSlash env
    → NoSlash node_id
    → (get_base_identity_from_topic (base_health_topic env node_id) ≡ node_id)
      × (get_base_identity_from_topic (base_simple_biz_topic env node_id) ≡ node_id)
      × (get_base_identity_from_topic (base_all_biz_topic env node_id) ≡ node_id)
      × (get_base_identity_from_topic (base_biz_operation_response_topic env node_id) ≡ node_id)
      × (get_base_identity_from_topic (base_batch_install_biz_response_topic env node_id) ≡ node_id)
      × (get_base_identity_from_topic (format_baseline_response_topic env node_id) ≡ node_id)
identity-node_topics env node_id h k = (
  identity_of_parts env node_id "base/health" h k,
  identity_of_parts env node_id "base/simpleBiz" h k,
  identity_of_parts env node_id "base/biz" h k,
  identity_of_parts env node_id "base/bizOperation" h k,
  identity_of_parts env node_id "base/batchInstallBizResponse" h k,
  identity_of_parts env node_id "base/baseline" h k,
)

split_at_colon : (s t : String) → NoColon s → split b':' (s <> ":" <> t) ≡ List.◌∷◌ s (split b':' t)
split_at_colon s t h = rw cons-append (rw nil-append (split-append ":" s t h))

-- Two biz whose names have no colon have the same identity only if names and versions agree.
pub get_biz_identity_inj :
    (name version name' version' : String)
    → NoColon name
    → NoColon name'
    → get_biz_identity name version ≡ get_biz_identity name' version'
    → (name ≡ name') × (version ≡ version')
get_biz_identity_inj name version name' version' h h' e =
    let fields =
      sym (split_at_colon name version h) ∙ ap (split b':') e ∙ split_at_colon name' version' h' in
    let same : name ≡ name' = (cons-eq-cons.0 fields).0 in
    (
      same,
      append_cancel_left ":" version version'
          (append_cancel_left name (":" <> version) (":" <> version') (rw (← same) at e)),
    )
