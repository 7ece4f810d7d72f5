-- ===== src/Bencode/Arrays.antt =====
-- src/bencode_parser.c: the growing arrays of `parse_bencode_list` and `parse_bencode_dict`.
use loco.Base.{ℕ, ◌*◌, ◌/◌, Bool, Option, none, some, size_max, ltb, leb, ◌==◌, if◌then◌else◌}

-- sizeof(bencode_object_t) and sizeof(bencode_dictionary_entry_t).
abbrev pub object_size : ℕ
object_size = 48

abbrev pub entry_size : ℕ
entry_size = 64

-- Whether `realloc` gives that many bytes, by the parser's position at the call: no two calls of a
-- run share a position, so an answer may depend on all that went before.
abbrev pub Allocator : Type 0
Allocator = ℕ → ℕ → Bool

unfoldable pub new_capacity : ℕ → ℕ
new_capacity capacity = if capacity == 0 then 1 else capacity * 2

-- Room for one more element of `size` bytes: the capacity after it, none where the code gives up.
unfoldable pub reserve : Allocator → ℕ → ℕ → ℕ → ℕ → Option ℕ
unfolding new_capacity
reserve realloc size position count capacity =
    if count == capacity
    then (if ltb (size_max / 2) capacity
        then none
        else if leb (new_capacity capacity) (size_max / size)
        then (if realloc position (new_capacity capacity * size)
            then some (new_capacity capacity)
            else none)
        else none)
    else some capacity
