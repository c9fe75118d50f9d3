-- ===== src/Tests/Values.antt =====
-- Witnesses for the functions that clean nested values.
use go_you.Common.{true, codes}
use go_you.Json.{Fields, null, bool, str, arr, obj, item, no_items, field, no_fields}

-- `{"meta": null, "score": {"meta": true, "you": [null, "a"]}}`
abbrev score : Fields
score = field (codes "meta") null (
    field (codes "score")
      (obj (
        field (codes "meta") (bool true)
          (field (codes "you") (arr (item null (item (str (codes "a")) no_items))) no_fields)))
      no_fields)
