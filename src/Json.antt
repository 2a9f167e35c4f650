-- ===== src/Json.antt =====
-- JSON values, as far as package encoding/json is used: the tree that a document stands for, and
-- how it fills a Go field. A missing member and `null` leave the zero value.
use localapp.Base.{false, Bool, Option, none, some, [], if◌then◌else◌, ℤ, pos}
use localapp.Text.{Str, str_eq}

mutual
  pub data Json : Type 0 where
    null : Json
    bool : Bool → Json
    num : ℤ → Json
    str : Str → Json
    arr : Items → Json
    obj : Members → Json

  pub data Items : Type 0 where
    nil : Items
    cons : Json → Items → Items

  pub data Members : Type 0 where
    end : Members
    member : Str → Json → Members → Members

unfoldable pub get : Str → Members → Option Json
unfolding str_eq
get k end = none
get k (member j v ms) = if str_eq j k then some v else get k ms

-- Decoding into a string, an integer and a Boolean; `none` is a type error.
unfoldable pub to_str : Option Json → Option Str
to_str none = some []
to_str (some null) = some []
to_str (some (str s)) = some s
to_str (some _) = none

unfoldable pub to_int : Option Json → Option ℤ
to_int none = some (pos 0)
to_int (some null) = some (pos 0)
to_int (some (num n)) = some n
to_int (some _) = none

unfoldable pub to_bool : Option Json → Option Bool
to_bool none = some false
to_bool (some null) = some false
to_bool (some (bool b)) = some b
to_bool (some _) = none

-- The elements of an array.
unfoldable pub to_items : Option Json → Option Items
to_items none = some nil
to_items (some null) = some nil
to_items (some (arr xs)) = some xs
to_items (some _) = none

-- The members of an object that fills a struct.
unfoldable pub to_members : Json → Option Members
to_members null = some end
to_members (obj ms) = some ms
to_members _ = none
