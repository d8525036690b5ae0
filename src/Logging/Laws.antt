-- ===== src/Logging/Laws.antt =====
-- The handlers of src/LogManager.cpp as a set: a handler is known by its kind and, for a file, by its
-- path.
use exodbc.Prelude.{
  ℕ, suc, ◌+◌, ◌-◌, ◌≡◌, refl, sym, ap, Bool, true, false, not, ◌&&◌, ◌||◌, List, [], ◌∷◌, ◌++◌,
  arith, ltb, if◌then◌else◌,
}
use exodbc.Prelude.Texts.{Text, text_eq, text_eq_sound, text_eq_refl}
use exodbc.Logging.Handler.{
  same_handler, on_log_message, LogLevel, Message, LogHandler, Printing, std_log_handler,
  null_log_handler, file_log_handler,
}
use exodbc.Logging.{
  is_registered, register_handler, clear_log_handlers, remove_handler, remove_log_handler,
  set_global_log_level, each, log_message, LogManager,
}

pub data Key : Type 0 where
  std_key null_key : Key
  file_key : Text → Key

abbrev pub key : LogHandler → Key
key (std_log_handler b e o) = std_key
key (null_log_handler b) = null_key
key (file_log_handler b s p f) = file_key s

abbrev pub same_key : Key → Key → Bool
same_key std_key std_key = true
same_key null_key null_key = true
same_key (file_key s) (file_key s') = text_eq s' s
same_key _ _ = false

-- How many handlers have the key.
abbrev pub count_key : Key → List LogHandler → ℕ
count_key k [] = 0
count_key k (h ∷ r) = let rest = count_key k r in if same_key (key h) k then suc rest else rest

-- What is asked of the log.
pub data Request : Type 0 where
  register remove : LogHandler → Request
  clear_all : Request
  set_level : LogLevel → Request
  log : Message → Request

abbrev pub serve : Printing → Request → LogManager → LogManager
serve p (register h) m = register_handler h m
serve p (remove h) m = remove_log_handler h m
serve p clear_all m = clear_log_handlers m
serve p (set_level l) m = set_global_log_level l m
serve p (log x) m = (log_message p x m).1

-- The same, of a set of keys.
abbrev pub serve_set : Request → (Key → Bool) → Key → Bool
serve_set (register h) s k = s k || same_key (key h) k
serve_set (remove h) s k = s k && not (same_key (key h) k)
serve_set clear_all s k = false
serve_set (set_level l) s k = s k
serve_set (log x) s k = s k

abbrev pub serve_all : Printing → List Request → LogManager → LogManager
serve_all p [] m = m
serve_all p (q ∷ r) m = serve_all p r (serve p q m)

abbrev pub serve_all_set : List Request → (Key → Bool) → Key → Bool
serve_all_set [] s = s
serve_all_set (q ∷ r) s = serve_all_set r (serve_set q s)

same_key_sound : (a b : Key) → same_key a b ≡ true → a ≡ b
same_key_sound std_key std_key e = refl
same_key_sound null_key null_key e = refl
same_key_sound (file_key s) (file_key s') e = ap file_key (sym (text_eq_sound s' s e))
same_key_sound std_key null_key e = ground arith
same_key_sound std_key (file_key s) e = ground arith
same_key_sound null_key std_key e = ground arith
same_key_sound null_key (file_key s) e = ground arith
same_key_sound (file_key s) std_key e = ground arith
same_key_sound (file_key s) null_key e = ground arith

same_key_self : (a : Key) → same_key a a ≡ true
same_key_self a = grind (arith, text_eq_refl)

same_handler-key : (g h : LogHandler) → same_handler g h ≡ same_key (key g) (key h)
same_handler-key g h = ground arith

is_registered-count :
    (h : LogHandler) (hs : List LogHandler) → is_registered h hs ≡ ltb 0 (count_key (key h) hs)
is_registered-count h [] = refl
is_registered-count h (g ∷ r) = ground (arith, same_handler-key g h, is_registered-count h r)

count_key-append :
    (k : Key) (h : LogHandler) (hs : List LogHandler)
    → count_key k (hs ++ (h ∷ [])) ≡ count_key k hs + (if same_key (key h) k then 1 else 0)
count_key-append k h [] = ground arith
count_key-append k h (g ∷ r) = ground (arith, count_key-append k h r)

count_key-remove :
    (k : Key) (h : LogHandler) (hs : List LogHandler)
    → count_key k (remove_handler h hs)
      ≡ (if same_key (key h) k then count_key k hs - 1 else count_key k hs)
unfolding remove_handler
count_key-remove k h [] = ground arith
count_key-remove k h (g ∷ r) = ground (
  arith,
  count_key-remove k h r,
  same_handler-key g h,
  same_key_sound (key g) (key h),
  same_key_sound (key h) k,
)

on_log_message-key :
    (p : Printing) (x : Message) (h : LogHandler) → key (on_log_message p x h).1 ≡ key h
unfolding on_log_message
on_log_message-key p x h = ground arith

each-count :
    (p : Printing) (x : Message) (k : Key) (hs : List LogHandler)
    → count_key k (each p x hs).1 ≡ count_key k hs
each-count p x k [] = refl
each-count p x k (h ∷ r) = ground (arith, each-count p x k r, on_log_message-key p x h)

-- A number of handlers says that of a set: one for a member, none for others.
abbrev pub Tells : (Key → Bool) → LogManager → Type 0
Tells s m = (k : Key) → count_key k m.log_handlers ≡ (if s k then 1 else 0)

serve-Tells :
    (p : Printing) (q : Request) (s : Key → Bool) (m : LogManager)
    → Tells s m
    → Tells (serve_set q s) (serve p q m)
unfolding register_handler remove_log_handler clear_log_handlers set_global_log_level log_message
serve-Tells p (register h) s m t k = ground (
  arith,
  t k,
  t (key h),
  is_registered-count h m.log_handlers,
  count_key-append k h m.log_handlers,
  same_key_sound (key h) k,
)
serve-Tells p (remove h) s m t k = ground (arith, t k, count_key-remove k h m.log_handlers)
serve-Tells p clear_all s m t k = refl
serve-Tells p (set_level l) s m t k = t k
serve-Tells p (log x) s m t k = ground (arith, t k, each-count p x k m.log_handlers)

-- The handlers of a log manager behave as a set of keys: whatever is asked of a manager in which each
-- key of a set has one handler and no other has any, afterwards this holds of the set to which the
-- same was done. No handler is there twice, therefore, and one that was removed is gone.
pub serve_all-Tells :
    (p : Printing) (r : List Request) (s : Key → Bool) (m : LogManager)
    → Tells s m
    → Tells (serve_all_set r s) (serve_all p r m)
serve_all-Tells p [] s m t = t
serve_all-Tells p (q ∷ r) s m t =
    serve_all-Tells p r (serve_set q s) (serve p q m) (serve-Tells p q s m t)
