-- ===== src/Components/UrlItem/Tests.antt =====
-- The theorems on a link's row at concrete inputs.
use bittuly.Prelude.{◌≡◌, true, false, not, ◌&&◌, any, none, some, if◌then◌else◌}
use bittuly.Components.UrlItem.{Browser, writing, settled, execute_copy}
use bittuly.Components.UrlItem.Laws.{left_behind, is_append, succeeded, execute_copy-clean}

-- A page that came by http, where copying fails.
abbrev insecure : Browser
insecure = record { has_clipboard = true; is_secure_context = false; exec_command = none }

execute_copy-clean_example :
    let (acts, promise) = execute_copy insecure "https://bittuly.example/3" in
    let usable = insecure.has_clipboard && insecure.is_secure_context in
    (left_behind acts 0 ≡ some 0)
    × (any is_append acts ≡ not usable)
    × (promise ≡ (if usable then writing else settled (succeeded insecure.exec_command)))
execute_copy-clean_example = execute_copy-clean insecure "https://bittuly.example/3"
