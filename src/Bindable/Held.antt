-- ===== src/Bindable/Held.antt =====
-- What the driver may still write to or read from, by the documents of ODBC for the calls that have
-- been made, and whether the driver has answered plainly.
use exodbc.Prelude.{
  ℕ, Bool, true, false, not, ◌&&◌, ◌||◌, Option, none, some, List, [], ◌∷◌, ◌==◌, if◌then◌else◌,
}
use exodbc.Prelude.Texts.{Text}
use exodbc.Odbc.{
  succeeded, is_stmt, Driver, Ret, FreeOption, Call, Event, success_with_info, error, sql_unbind,
  sql_reset_params, sql_alloc_handle, sql_free_handle, sql_free_stmt, sql_bind_col,
  sql_bind_parameter, called,
}
use exodbc.Bindable.{Binding, columns, params}

abbrev pub is_handle : Option ℕ → ℕ → Bool
is_handle none h = false
is_handle (some x) h = x == h

abbrev is_error : Ret → Bool
is_error error = true
is_error _ = false

abbrev pub without_info : Ret → Bool
without_info success_with_info = false
without_info _ = true

abbrev is_buffer : Text → ℕ → Bool
is_buffer (x ∷ []) b = x == b
is_buffer _ b = false

-- Does this option release these bindings?
abbrev pub releases : FreeOption → Binding → Bool
releases sql_unbind columns = true
releases sql_reset_params params = true
releases _ k = false

abbrev pub option_of : Binding → FreeOption
option_of columns = sql_unbind
option_of params = sql_reset_params

module _ (d : Driver) where
  -- After a call, from what it was before: is the buffer bound to the statement?
  abbrev pub held_after : Binding → ℕ → ℕ → List Event → Call → Bool → Bool
  held_after columns h b tr (sql_bind_col x nr t) was =
      (is_handle x h && is_buffer t b && succeeded (d tr (sql_bind_col x nr t)).ret) || was
  held_after params h b tr (sql_bind_parameter x nr t) was =
      (is_handle x h && is_buffer t b && succeeded (d tr (sql_bind_parameter x nr t)).ret) || was
  held_after k h b tr (sql_free_stmt x o) was =
      if is_handle x h && releases o k && succeeded (d tr (sql_free_stmt x o)).ret
      then false
      else was
  held_after k h b tr (sql_free_handle t x) was =
      if x == h && is_stmt t && (if is_error (d tr (sql_free_handle t x)).ret then false else true)
      then false
      else was
  held_after k h b tr _ was = was

  -- May the driver still use the buffer `b` for the statement `h`?
  unfoldable pub is_held : Binding → ℕ → ℕ → List Event → Bool
  is_held k h b [] = false
  is_held k h b (called c ∷ tr) = held_after k h b tr c (is_held k h b tr)
  is_held k h b (e ∷ tr) = is_held k h b tr

  -- Has the driver ever given this handle?
  unfoldable pub was_given : ℕ → List Event → Bool
  was_given h [] = false
  was_given h (called (sql_alloc_handle t p) ∷ tr) =
      is_handle (d tr (sql_alloc_handle t p)).out h || was_given h tr
  was_given h (e ∷ tr) = was_given h tr

  -- Is this a handle that has not been given before?
  abbrev is_new : List Event → Option ℕ → Bool
  is_new tr none = true
  is_new tr (some h) = not (was_given h tr)

  abbrev is_plain_call : List Event → Call → Bool
  is_plain_call tr (sql_alloc_handle t p) = is_new tr (d tr (sql_alloc_handle t p)).out
  is_plain_call tr (sql_bind_col x nr t) = without_info (d tr (sql_bind_col x nr t)).ret
  is_plain_call tr (sql_bind_parameter x nr t) = without_info (d tr (sql_bind_parameter x nr t)).ret
  is_plain_call tr (sql_free_stmt x o) = succeeded (d tr (sql_free_stmt x o)).ret
  is_plain_call tr _ = true

  -- Has the driver, so far, given no handle value twice, answered no binding with
  -- SQL_SUCCESS_WITH_INFO, and let no call of SQLFreeStmt fail?
  unfoldable pub is_plain : List Event → Bool
  unfolding was_given
  is_plain [] = true
  is_plain (called c ∷ tr) = is_plain_call tr c && is_plain tr
  is_plain (e ∷ tr) = is_plain tr
