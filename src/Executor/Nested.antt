-- ===== src/Executor/Nested.antt =====
-- src/executor.ts: file parts below the parts of a message.
use claw_crony.Base.{◌≡◌, ◌++◌}
use claw_crony.Base.Text.{Text, codes}
use claw_crony.Base.Json.{Json, Items, Fields, str, arr, obj, nil, cons, end, field}

-- A file part.
abbrev pub file_part_of : Fields → Json
file_part_of file =
    obj (field (codes "kind") (str (codes "file")) (field (codes "file") (obj file) end))

-- A part of no kind that has parts itself, with anything else after them.
abbrev pub wrapping : Items → Fields → Json
wrapping inner rest = obj (field (codes "parts") (arr inner) rest)

-- A message whose parts begin with a file part inside another part.
abbrev pub wrapped : Fields → Fields → Items → Json
wrapped file rest others =
    obj
      (field (codes "parts") (arr (cons (wrapping (cons (file_part_of file) nil) rest) others)) end)

-- The text stands somewhere in the line.
abbrev pub IsIn : Text → Text → Type 0
IsIn u line = (before : Text) × (after : Text) × (line ≡ before ++ (u ++ after))
