-- ===== src/Server/Consistency/OperatorLines.antt =====
-- The lines of the operator, server/operator.go, as to the indexes.
use net_cat.Base.{
  Bytes, bytes_eq, trim_space, List, [], ◌∷◌, Option, none, some, inl, inr, Bool-cases,
}
use net_cat.Base.Assoc.{lookup}
use net_cat.Cmd.{CommandDef}
use net_cat.Server.{Server, Now}
use net_cat.Server.Operator.{operator_cmd_list, operator_cmd_help, operator_cmd_rooms}
use net_cat.Server.Operator.Dispatch.{
  operator_dispatch, operator_command_handlers, run_operator_handler, run_applicable, run_known,
  run_parsed,
}
use net_cat.Server.Index.{index, IsConsistent}
use net_cat.Server.Consistency.{kept}
use net_cat.Server.Consistency.Operate.{
  operator_lines-index, Keeps, said, operator_cmd_kick-IsConsistent, operator_cmd_ban-IsConsistent,
  operator_cmd_announce-IsConsistent, operator_cmd_mute-IsConsistent,
  operator_cmd_unmute-IsConsistent, operator_cmd_promote-IsConsistent,
  operator_cmd_demote-IsConsistent,
}

operator_cmd_list-IsConsistent :
    (now : Now) (s : Server)
    → IsConsistent (index s)
    → IsConsistent (index (operator_cmd_list now s))
unfolding operator_cmd_list
operator_cmd_list-IsConsistent now s v = kept s _ (operator_lines-index _ s) v

operator_cmd_help-IsConsistent :
    (s : Server) → IsConsistent (index s) → IsConsistent (index (operator_cmd_help s))
unfolding operator_cmd_help
operator_cmd_help-IsConsistent s v = kept s _ (operator_lines-index _ s) v

operator_cmd_rooms-IsConsistent :
    (s : Server) → IsConsistent (index s) → IsConsistent (index (operator_cmd_rooms s))
unfolding operator_cmd_rooms
operator_cmd_rooms-IsConsistent s v = kept s _ (operator_lines-index _ s) v

-- What a lookup finds is in the table.
AllKeep : List (Bytes × (Now → Bytes → Server → Server)) → Type 0
AllKeep [] = Unit
AllKeep ((k, f) ∷ m) = Keeps f × AllKeep m

handlers_keep : AllKeep operator_command_handlers
unfolding AllKeep operator_command_handlers
handlers_keep = (
  λ now args. operator_cmd_list-IsConsistent now,
  (
    λ now args. operator_cmd_help-IsConsistent,
    (
      λ now args. operator_cmd_rooms-IsConsistent,
      (
        operator_cmd_kick-IsConsistent,
        (
          operator_cmd_ban-IsConsistent,
          (
            operator_cmd_mute-IsConsistent,
            (
              operator_cmd_unmute-IsConsistent,
              (
                operator_cmd_announce-IsConsistent,
                (operator_cmd_promote-IsConsistent, (operator_cmd_demote-IsConsistent, tt)),
              ),
            ),
          ),
        ),
      ),
    ),
  ),
)

run_operator_handler-IsConsistent :
    (name args : Bytes) (m : List (Bytes × (Now → Bytes → Server → Server))) (now : Now)
    (s : Server)
    → AllKeep m
    → IsConsistent (index s)
    → IsConsistent (index (run_operator_handler (lookup name m) now name args s))
unfolding AllKeep run_operator_handler lookup
run_operator_handler-IsConsistent name args [] now s keep v = said _ s v
run_operator_handler-IsConsistent name args ((k, f) ∷ m) now s (keep, keeps) v =
    elim (Bool-cases (bytes_eq k name)) [
      | inl e ↦ rw (e, lookup) (keep now args s v)
      | inr e ↦ rw (e, lookup) (run_operator_handler-IsConsistent name args m now s keeps v)
    ]

run_applicable-IsConsistent :
    (now : Now) (name args : Bytes) (o : Option Bytes) (s : Server)
    → IsConsistent (index s)
    → IsConsistent (index (run_applicable o now name args s))
unfolding run_applicable
run_applicable-IsConsistent now name args (some msg) s v = said msg s v
run_applicable-IsConsistent now name args none s v =
    run_operator_handler-IsConsistent name args operator_command_handlers now s handlers_keep v

run_known-IsConsistent :
    (now : Now) (name args : Bytes) (o : Option CommandDef) (s : Server)
    → IsConsistent (index s)
    → IsConsistent (index (run_known o now name args s))
unfolding run_known
run_known-IsConsistent now name args none s v = said _ s v
run_known-IsConsistent now name args (some d) s v = run_applicable-IsConsistent now name args _ s v

run_parsed-IsConsistent :
    (now : Now) (o : Option (Bytes × Bytes)) (s : Server)
    → IsConsistent (index s)
    → IsConsistent (index (run_parsed o now s))
unfolding run_parsed
run_parsed-IsConsistent now none s v = said _ s v
run_parsed-IsConsistent now (some (name, args)) s v = run_known-IsConsistent now name args _ s v

-- Whatever the operator types, consistent indexes stay consistent.
pub operator_dispatch-IsConsistent :
    (now : Now) (input : Bytes) (s : Server)
    → IsConsistent (index s)
    → IsConsistent (index (operator_dispatch now input s))
unfolding operator_dispatch
operator_dispatch-IsConsistent now input s v = elim (Bool-cases (bytes_eq (trim_space input) [])) [
  | inl e ↦ rw (e, operator_dispatch) v
  | inr e ↦ rw (e, operator_dispatch) (run_parsed-IsConsistent now _ s v)
]
