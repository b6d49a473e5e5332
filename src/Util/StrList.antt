-- ===== src/Util/StrList.antt =====
-- src/util/str_list.c: a list of texts that grows at its end. An allocation is taken to succeed, and
-- qsort(3) is a function on lists.
use molto.Base.{
  ℕ, ◌*◌, Bytes, Option, none, List, [], ◌∷◌, ◌++◌, ◌==◌, leb, ltb, if◌then◌else◌, length,
  get_elem?, take,
}

pub record StrList : Type 0 where
  pub items : List Bytes
  pub capacity : ℕ

unfoldable pub str_list_init : StrList
str_list_init = record { items = []; capacity = 0 }

unfoldable pub str_list_grow : StrList → StrList
str_list_grow list = record list { capacity = if list.capacity == 0 then 8 else list.capacity * 2 }

unfoldable pub str_list_push : StrList → Bytes → StrList
str_list_push list value =
    let grown = if length list.items == list.capacity then str_list_grow list else list in
    record grown { items = grown.items ++ (value ∷ []) }

unfoldable pub str_list_count : StrList → ℕ
str_list_count list = length list.items

unfoldable pub str_list_get : StrList → ℕ → Option Bytes
str_list_get list index = if leb (length list.items) index then none else get_elem? list.items index

unfoldable pub str_list_sort : (List Bytes → List Bytes) → StrList → StrList
str_list_sort qsort list =
    if ltb 1 (length list.items) then record list { items = qsort list.items } else list

-- The items past a count are dropped from the end.
unfoldable pub str_list_truncate : StrList → ℕ → StrList
str_list_truncate list count = record list { items = take count list.items }

unfoldable pub str_list_free : StrList → StrList
str_list_free list = str_list_init
