-- ===== src/Relay/Policy.antt =====
-- The scopes of the tools in internal/mcpgateway/policy.go, and the test on them that the handler of a
-- registered tool makes in server.go. `RequiredScope`, which only code that nothing calls uses, is left out.
use roblox_mcp_gateway.Prelude.{
  String, Bool, true, false, not, ◌&&◌, List, [], ◌∷◌, none, some, ◌==◌, string_comparable,
  if◌then◌else◌,
}
use roblox_mcp_gateway.Prelude.Map.{lookup}

-- The scopes of internal/mcpoauth/model.go.
abbrev pub scope_connect : String
scope_connect = "mcp:connect"

abbrev pub scope_studio_read : String
scope_studio_read = "studio:read"

abbrev pub scope_studio_edit : String
scope_studio_edit = "studio:edit"

abbrev pub scope_studio_exec : String
scope_studio_exec = "studio:execute"

abbrev pub scope_studio_play : String
scope_studio_play = "studio:playtest"

abbrev pub scope_studio_asset : String
scope_studio_asset = "studio:asset"

abbrev pub scope_studio_input : String
scope_studio_input = "studio:input"

unfoldable pub official_tool_scopes : List (String × String)
official_tool_scopes =
    ("list_roblox_studios", scope_studio_read)
    ∷ ("get_studio_state", scope_studio_read)
    ∷ ("get_console_output", scope_studio_read)
    ∷ ("search_game_tree", scope_studio_read)
    ∷ ("inspect_instance", scope_studio_read)
    ∷ ("script_read", scope_studio_read)
    ∷ ("script_search", scope_studio_read)
    ∷ ("script_grep", scope_studio_read)
    ∷ ("multi_edit", scope_studio_edit)
    ∷ ("execute_luau", scope_studio_exec)
    ∷ ("start_stop_play", scope_studio_play)
    ∷ ("character_navigation", scope_studio_play)
    ∷ ("user_mouse_input", scope_studio_input)
    ∷ ("user_keyboard_input", scope_studio_input)
    ∷ ("search_asset", scope_studio_asset)
    ∷ ("insert_asset", scope_studio_asset)
    ∷ ("upload_image", scope_studio_asset)
    ∷ ("store_image", scope_studio_asset)
    ∷ ("generate_mesh", scope_studio_asset)
    ∷ ("segment_mesh", scope_studio_asset)
    ∷ ("generate_texture", scope_studio_asset)
    ∷ ("generate_material", scope_studio_asset)
    ∷ ("generate_procedural_model", scope_studio_asset)
    ∷ ("skill", scope_studio_read)
    ∷ ("subagent", scope_studio_read)
    ∷ ("http_get", scope_studio_read)
    ∷ ("screen_capture", scope_studio_read)
    ∷ ("run_as_job", scope_studio_asset)
    ∷ ("wait_job_finished", scope_studio_asset)
    ∷ ("get_instance_tree", scope_studio_read)
    ∷ ("get_instance_properties", scope_studio_read)
    ∷ ("get_selected_instances", scope_studio_read)
    ∷ ("get_script_content", scope_studio_read)
    ∷ ("query_instances", scope_studio_read)
    ∷ ("set_instance_properties", scope_studio_edit)
    ∷ ("set_script_content", scope_studio_edit)
    ∷ ("create_script", scope_studio_edit)
    ∷ ("insert_instance", scope_studio_edit)
    ∷ ("delete_instance", scope_studio_edit)
    ∷ ("rename_instance", scope_studio_edit)
    ∷ ("run_playtest", scope_studio_play)
    ∷ ("stop_playtest", scope_studio_play)
    ∷ ("get_playtest_state", scope_studio_play)
    ∷ ("send_playtest_input", scope_studio_input)
    ∷ ("send_input", scope_studio_input)
    ∷ ("upload_asset", scope_studio_asset)
    ∷ ("get_asset", scope_studio_asset)
    ∷ ("execute_lua", scope_studio_exec)
    ∷ ("run_script", scope_studio_exec)
    ∷ []

-- `scope, _ := officialToolScopes[name]`: a missing name reads as the empty scope.
unfoldable pub tool_scope : String → String
unfolding lookup official_tool_scopes
tool_scope name = elim (lookup name official_tool_scopes) [ none ↦ "" | some scope ↦ scope ]

unfoldable pub scope_allowed : List String → String → Bool
scope_allowed [] want = false
scope_allowed (scope ∷ granted) want = if scope == want then true else scope_allowed granted want

-- The test of a tool's handler.
unfoldable pub is_refused : List String → String → Bool
unfolding scope_allowed
is_refused granted scope =
    not (scope_allowed granted scope) && not (scope_allowed granted scope_connect)
