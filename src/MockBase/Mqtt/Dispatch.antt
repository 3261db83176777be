-- ===== src/MockBase/Mqtt/Dispatch.antt =====
-- The commands that the MQTT tunnel publishes, as the mock base tells them apart.
use Prim.Native.Char.{Char, code}
use Prim.Native.String.{[], ◌∷◌}
use Prim.Native.String
use mathlib.Core.List.{List}
use text.Mathlib.TextLemmas.{nil-append, cons-append, append_assoc}
use module_controller.Prelude.{
  String, true, ◌≡◌, refl, ap, ◌∙◌, none, some, ◌<>◌, arith, eqb, if◌then◌else◌, Bool-cases, inl,
  inr,
}
use module_controller.Go.Strings.{split, cons_head}
use module_controller.Go.Strings.Split.{Lacks, split_of_Lacks, split-append}
use module_controller.Model.{
  command_health, command_query_all_biz, command_install_biz, command_uninstall_biz,
}
use module_controller.Utils.{format_arklet_command_topic}
use module_controller.MockBase.Mqtt.{
  MockMqttBase, health, query_all_biz, install_biz, uninstall_biz, last_of, task_of,
  process_command,
}

-- At least two fields, the last of which is `t`.
record EndsWith (t : String) (fields : List String) : Type 0 where
  first : String
  second : String
  more : List String
  shape : fields ≡ List.◌∷◌ first (List.◌∷◌ second more)
  last : last_of (List.◌∷◌ second more) ≡ t

cons_head-EndsWith :
    (c : Char) (t : String) (fields : List String)
    → EndsWith t fields
    → EndsWith t (cons_head c fields)
cons_head-EndsWith c t fields e = record {
  first = c ∷ e.first;
  second = e.second;
  more = e.more;
  shape = ap (cons_head c) e.shape;
  last = e.last;
}

cons-EndsWith :
    (s t : String) (fields : List String) → EndsWith t fields → EndsWith t (List.◌∷◌ s fields)
cons-EndsWith s t fields e = record {
  first = s;
  second = e.first;
  more = List.◌∷◌ e.second e.more;
  shape = ap (List.◌∷◌ s) e.shape;
  last = e.last;
}

split-EndsWith :
    (d : Char) (s t : String)
    → Lacks (code d) t
    → EndsWith t (split (code d) (String.◌++◌ s (d ∷ t)))
unfolding split
split-EndsWith d [] t h = record {
  first = "";
  second = t;
  more = List.[];
  shape = split-append d [] t tt ∙ ap (List.◌∷◌ "") (split_of_Lacks (code d) t h);
  last = refl;
}
split-EndsWith d (c ∷ s) t h = rw cons-append (elim (Bool-cases (eqb (code c) (code d))) [
  | inl cut ↦ rw cut (cons-EndsWith "" t _ (split-EndsWith d s t h))
  | inr kept ↦ rw kept (cons_head-EndsWith c t _ (split-EndsWith d s t h))
])

last-split :
    (d : Char) (s t : String)
    → Lacks (code d) t
    → last_of (split (code d) (String.◌++◌ s (d ∷ t))) ≡ t
last-split d s t h = let e = split-EndsWith d s t h in ap last_of e.shape ∙ e.last

command_topic_cut :
    (env node_id command : String)
    → format_arklet_command_topic env node_id command
      ≡ String.◌++◌ ("koupleless_" <> env <> "/" <> node_id) ("/" ∷ command)
command_topic_cut env node_id command =
    let slash : "/" <> command ≡ "/" ∷ command = rw cons-append (rw nil-append refl) in
    simp append_assoc (ap (λ t. "koupleless_" <> env <> "/" <> node_id <> t) slash)

last-command_topic :
    (env node_id command : String)
    → Lacks b'/' command
    → last_of (split b'/' (format_arklet_command_topic env node_id command)) ≡ command
last-command_topic env node_id command h =
    ap (λ topic. last_of (split b'/' topic)) (command_topic_cut env node_id command)
    ∙ last-split "/" ("koupleless_" <> env <> "/" <> node_id) command h

dispatched :
    (env node_id command payload : String) (b : MockMqttBase)
    → Lacks b'/' command
    → b.reachable ≡ true
    → process_command (format_arklet_command_topic env node_id command) payload b
      ≡ task_of command payload
unfolding process_command
dispatched env node_id command payload b h up =
    ap
      (λ r.
        if r
        then task_of (last_of (split b'/' (format_arklet_command_topic env node_id command)))
            payload
        else none)
      up
    ∙ ap (λ c. task_of c payload) (last-command_topic env node_id command h)

-- A reachable base takes a message on the topic that the tunnel formats for a command as that
-- command, whatever its environment and its identity, slashes included.
pub process_command-format_arklet_command_topic :
    (env node_id payload : String) (b : MockMqttBase)
    → b.reachable ≡ true
    → (process_command (format_arklet_command_topic env node_id command_health) payload b
        ≡ some health)
      × (process_command (format_arklet_command_topic env node_id command_query_all_biz) payload b
          ≡ some query_all_biz)
      × (process_command (format_arklet_command_topic env node_id command_install_biz) payload b
          ≡ some (install_biz payload))
      × (process_command (format_arklet_command_topic env node_id command_uninstall_biz) payload b
          ≡ some (uninstall_biz payload))
unfolding task_of
process_command-format_arklet_command_topic env node_id payload b up = (
  dispatched env node_id command_health payload b (omega arith) up,
  dispatched env node_id command_query_all_biz payload b (omega arith) up,
  dispatched env node_id command_install_biz payload b (omega arith) up,
  dispatched env node_id command_uninstall_biz payload b (omega arith) up,
)
