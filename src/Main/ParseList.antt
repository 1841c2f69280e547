-- ===== src/Main/ParseList.antt =====
-- `parseList` of cmd/lbsync/main.go.
pub mod Join
use lbsync.Prelude.{Text, same, List, [], ◌∷◌, if◌then◌else◌}
use lbsync.Main.Strings.{trim_space, split}

-- The loop over the parts.
unfoldable pub keep_parts : List Text → List Text
keep_parts [] = []
keep_parts (p ∷ parts) =
    let p' = trim_space p in let rest = keep_parts parts in if same p' [] then rest else p' ∷ rest

-- parseList
unfoldable pub parse_list : Text → List Text
parse_list s = if same (trim_space s) [] then [] else keep_parts (split b',' s)
