-- ===== src/Tests/Flavors.antt =====
-- Assignments by flavor, with an expansion that marks its text and defines the variable anew: the state is what the
-- variable has.
use gmake.Flavors.{Assigned, kept, assigned, flavor_value}
use gmake.Flavors.Append.{Appended, append-words}
use gmake.Prelude.{[], ◌≡◌, refl, true, false, ◌&&◌, ◌++◌, none, some, Bytes, codes, if◌then◌else◌}
use gmake.Variables.{Variable, variable_key, f_append, f_expand, f_conditional}

abbrev marking : Bytes → Bytes → Bytes × Bytes
marking t s = (t ++ codes "!", codes "new")

abbrev in_state : Variable → Bytes → Bytes
in_state v s = s

abbrev flags : Variable
flags = record (variable_key (codes "CFLAGS")) { value = codes "-g" }

-- the value behind the expansion is the one that the text is pasted to
simple_run :
    flavor_value in_state marking marking f_append false (some flags) (codes "-O2") (codes "-g")
    ≡ (assigned (codes "new -O2!") false false false, codes "new")
unfolding flavor_value
simple_run = refl

recursive_run :
    flavor_value in_state marking marking f_append false
      (some (record flags { recursive = true }))
      (codes "-O2")
      (codes "-g")
    ≡ (assigned (codes "-g -O2") true false false, codes "-g")
unfolding flavor_value
recursive_run = refl

expand_run :
    flavor_value in_state marking marking f_expand false none (codes "a$b") []
    ≡ (assigned (codes "a$$b!") true false false, codes "new")
unfolding flavor_value
expand_run = refl

conditional_run :
    flavor_value in_state marking marking f_conditional false (some flags) (codes "x") []
    ≡ (kept, [])
unfolding flavor_value
conditional_run = refl

append-words_example :
    (val : Bytes) × (after : Bytes) × (r : Assigned) × (flavor_value in_state marking marking
        f_append false
        (some flags)
        (codes "-O2 -Wall")
        (codes "-g")
      ≡ (r, after))
    × ((val, after) ≡ (
        if Variable.recursive flags
        then (codes "-O2 -Wall", codes "-g")
        else marking (codes "-O2 -Wall") (codes "-g")))
    × Appended
        (in_state flags after)
        (Variable.recursive flags)
        (false && Variable.append flags)
        val
        r
append-words_example =
    append-words in_state marking marking false flags (codes "-O2 -Wall") (codes "-g")
