-- ===== src/Server/Course/OperatorLines.antt =====
-- The course of what the operator types, server/operator.go.
use net_cat.Base.{Bytes, bytes_eq, List, [], ◌∷◌, Option, none, some, inl, inr, Bool-cases}
use net_cat.Base.Assoc.{lookup}
use net_cat.Cmd.{CommandDef}
use net_cat.Server.{Server, Now}
use net_cat.Server.Operator.{operator_cmd_list, operator_cmd_help, operator_cmd_rooms}
use net_cat.Server.Operator.Dispatch.{
  operator_command_handlers, run_operator_handler, run_applicable, run_known, run_parsed,
  operator_dispatch,
}
use net_cat.Server.Course.{After, same, either}
use net_cat.Server.Course.Operate.{
  said, operator_lines-After, Runs, operator_cmd_kick-After, operator_cmd_ban-After,
  operator_cmd_mute-After, operator_cmd_unmute-After, operator_cmd_announce-After,
  operator_cmd_promote-After, operator_cmd_demote-After,
}

-- What a lookup finds is in the table.
AllRun : List (Bytes × (Now → Bytes → Server → Server)) → Type 0
AllRun [] = Unit
AllRun ((k, f) ∷ m) = Runs f × AllRun m

handlers_run : AllRun operator_command_handlers
unfolding AllRun Runs operator_command_handlers operator_cmd_list operator_cmd_help
    operator_cmd_rooms
handlers_run = (
  λ now args s. operator_lines-After _ s,
  (
    λ now args s. operator_lines-After _ s,
    (
      λ now args s. operator_lines-After _ s,
      (
        operator_cmd_kick-After,
        (
          operator_cmd_ban-After,
          (
            operator_cmd_mute-After,
            (
              operator_cmd_unmute-After,
              (
                operator_cmd_announce-After,
                (operator_cmd_promote-After, (operator_cmd_demote-After, tt)),
              ),
            ),
          ),
        ),
      ),
    ),
  ),
)

run_operator_handler-After :
    (name args : Bytes) (m : List (Bytes × (Now → Bytes → Server → Server))) (now : Now)
    (s : Server)
    → AllRun m
    → After [] (run_operator_handler (lookup name m) now name args s) s
unfolding AllRun Runs run_operator_handler lookup
run_operator_handler-After name args [] now s h = said _ s
run_operator_handler-After name args ((k, f) ∷ m) now s (h, hs) =
    elim (Bool-cases (bytes_eq k name)) [
      | inl e ↦ rw (e, lookup) (h now args s)
      | inr e ↦ rw (e, lookup) (run_operator_handler-After name args m now s hs)
    ]

run_applicable-After :
    (now : Now) (name args : Bytes) (o : Option Bytes) (s : Server)
    → After [] (run_applicable o now name args s) s
unfolding run_applicable
run_applicable-After now name args (some msg) s = said msg s
run_applicable-After now name args none s =
    run_operator_handler-After name args operator_command_handlers now s handlers_run

run_known-After :
    (now : Now) (name args : Bytes) (o : Option CommandDef) (s : Server)
    → After [] (run_known o now name args s) s
unfolding run_known
run_known-After now name args none s = said _ s
run_known-After now name args (some d) s = run_applicable-After now name args _ s

run_parsed-After :
    (now : Now) (o : Option (Bytes × Bytes)) (s : Server) → After [] (run_parsed o now s) s
unfolding run_parsed
run_parsed-After now none s = said _ s
run_parsed-After now (some (name, args)) s = run_known-After now name args _ s

pub operator_dispatch-After :
    (now : Now) (input : Bytes) (s : Server) → After [] (operator_dispatch now input s) s
unfolding operator_dispatch
operator_dispatch-After now input s = either _ same (run_parsed-After now _ s)
