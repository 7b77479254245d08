-- ===== src/Host/VmTree/Render.antt =====
-- src/collect_vm_creation.rs: the text of a line of the tree, padded so that the hints line up, and
-- of a number of cycles.
use jolt_ncp.Base.{
  ℕ, zero, suc, ◌+◌, ◌-◌, ◌*◌, ◌/◌, String, [], ◌∷◌, ◌++◌, map, length, replicate, leb, ltb, ◌==◌,
  if◌then◌else◌,
}
use jolt_ncp.Host.Text.{Text, lit, dec, fixed}
use jolt_ncp.Host.Executor.{CollectorKey}
use jolt_ncp.Host.VmTree.{Segment, tee, elbow, bar, gap, Line, collector_key_str}

-- The digits of a number in base ten. A `u64` has at most 20.
unfoldable pub digits : ℕ → ℕ → ℕ
digits zero n = 1
digits (suc k) n = let rest = digits k (n / 10) in if ltb n 10 then 1 else suc rest

abbrev pub u64_digits : ℕ → ℕ
u64_digits n = digits 20 n

abbrev pub segment_str : Segment → String
segment_str tee = "├── "
segment_str elbow = "└── "
segment_str bar = "│   "
segment_str gap = "    "

-- `chars().count()` of the prefix, whose segments have four characters, and of the key.
unfoldable pub key_width : CollectorKey → ℕ
key_width key =
    if key.generation_id == 0
    then u64_digits key.vm_id
    else u64_digits key.vm_id + 1 + u64_digits key.generation_id

unfoldable pub line_width : Line → ℕ
unfolding key_width
line_width line = 12 + 4 * length line.indent + key_width line.key

-- The line that is printed: up to 32 characters, then a space and the hint.
unfoldable pub render : Line → Text
unfolding line_width
render line =
    lit "Spawn tree: "
    ∷ (map (λ s. lit (segment_str s)) line.indent
        ++ (collector_key_str line.key
            ++ (replicate (32 - line_width line) (lit " ") ++ lit " " ∷ line.hint)))

-- `HumanReadableCycles`
unfoldable pub human_readable_cycles : ℕ → Text
human_readable_cycles n =
    dec n
    ∷ (if leb (1024 * 1024) n
        then lit "(" ∷ fixed 1 n (1024 * 1024) ∷ lit "M)" ∷ []
        else if leb 1024 n
        then lit "(" ∷ fixed 1 n 1024 ∷ lit "K)" ∷ []
        else [])
