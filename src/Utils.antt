-- ===== src/Utils.antt =====
-- src/kernel/lpushUtils.cpp and src/kernel/lpushUtils.h: the test of the working directory, and `Trim`.
-- `npos` is `none`.
pub mod Place
use linkedon_push.Common.{
  ℕ, suc, ◌+◌, ◌-◌, ◌%◌, ◌^◌, Bool, true, false, [], ◌∷◌, Option, none, some, if◌then◌else◌, ◌==◌,
  ltb, leb, ◌||◌, Bytes, codes, c_str, is_nil, starts_with, length, take, drop,
}

abbrev pub shift : ℕ → Option ℕ → Option ℕ
shift k none = none
shift k (some i) = some (k + i)

-- `hay.find(needle)`.
unfoldable pub index_of : Bytes → Bytes → Option ℕ
index_of needle [] = if starts_with needle [] then some 0 else none
index_of needle (y ∷ ys) =
    if starts_with needle (y ∷ ys) then some 0 else shift 1 (index_of needle ys)

-- `hay.find(needle, from)`.
unfoldable pub find_from : Bytes → Bytes → ℕ → Option ℕ
find_from needle hay from =
    if leb from (length hay) then shift from (index_of needle (drop from hay)) else none

-- `LPUSH_PROJECT_NAME`, which the build can set; the name that is looked for.
unfoldable pub pro_suffix : Bytes → Bytes → Bytes
pro_suffix default project_dir = if is_nil project_dir then default else project_dir

-- The sum of an `int` and a `size_t` is a 64-bit word.
unfoldable pub ends_there : Option ℕ → ℕ → ℕ → ℕ → Bool
ends_there (some again) dir_size name_size index = false
ends_there none dir_size name_size index =
    (dir_size + 2 ^ 64 - name_size + 2 ^ 64 - index) % 2 ^ 64 == 0

-- What follows where the name was found first.
unfoldable pub at_index : Bytes → Bytes → Option ℕ → Bool
unfolding ends_there find_from
at_index name cwd none = false
at_index name cwd (some index) =
    if ltb 0 index
    then ends_there (find_from name cwd (index + 1)) (length cwd) (length name) index
    else false

-- `getCurrentDirect`: getcwd(2) fails where the directory cannot be told, `none`, or does not fit with its NUL into the
-- buffer of 260 bytes; what is returned is then the text that lies in the buffer, `memory`.
unfoldable pub get_current_direct : Bytes → Option Bytes → Bytes
get_current_direct memory none = c_str memory
get_current_direct memory (some cwd) = if ltb (length cwd) 260 then cwd else c_str memory

unfoldable pub check_pro_dir : Bytes → Bytes → Bytes → Option Bytes → Bool
unfolding pro_suffix at_index get_current_direct
check_pro_dir default project_dir memory cwd =
    let name = pro_suffix default project_dir in
    let current_dir = get_current_direct memory cwd in
    at_index name current_dir (index_of name current_dir)

-- The characters of `SPACE_CHAR`.
unfoldable pub is_space : ℕ → Bool
is_space c = c == 32 || c == 9 || c == 12 || c == 11 || c == 10 || c == 13

-- `msg.find_first_not_of(SPACE_CHAR)`.
unfoldable pub find_first_not_of : Bytes → Option ℕ
unfolding is_space
find_first_not_of [] = none
find_first_not_of (c ∷ cs) = if is_space c then shift 1 (find_first_not_of cs) else some 0

-- `msg.find_last_not_of(SPACE_CHAR)`.
unfoldable pub find_last_not_of : Bytes → Option ℕ
unfolding is_space
find_last_not_of [] = none
find_last_not_of (c ∷ cs) = elim (find_last_not_of cs) [
  | some i ↦ some (suc i)
  | none ↦ if is_space c then none else some 0
]

-- `result.substr(0,end)` with `end` one past what was found, or `npos`.
unfoldable pub cut_end : Option ℕ → Bytes → Bytes
cut_end none result = result
cut_end (some i) result = take (i + 1) result

unfoldable pub trim : Bytes → Bytes
unfolding find_first_not_of find_last_not_of cut_end
trim msg = elim (find_first_not_of msg) [
  | none ↦ []
  | some beg ↦ let result = drop beg msg in cut_end (find_last_not_of result) result
]
