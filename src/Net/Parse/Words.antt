-- ===== src/Net/Parse/Words.antt =====
-- `split_whitespace` and the first line, on texts that are printed word by word.
use x2ssh.Base.{ℕ, ◌≡◌, refl, sym, ap, ◌∙◌, List, [], ◌∷◌, ◌++◌, append_assoc, append-nil}
use x2ssh.Base.{true, false, some, Str, ◌==◌, ==_iff, Bool-cases, inl, inr, is_empty, All}
use x2ssh.Net.Parse.{is_whitespace, end_word, words_from, split_whitespace, cut_line, first_line}

-- No character of the text is white space.
abbrev pub NoSpace : Str → Type 0
NoSpace s = All (λ (c : ℕ). is_whitespace c ≡ false) s

abbrev pub IsWord : Str → Type 0
IsWord s = (is_empty s ≡ false) × NoSpace s

-- Every word with a space behind it, as `ip` prints a line.
abbrev pub unwords : List Str → Str
unwords [] = []
unwords (s ∷ ss) = s ++ (32 ∷ unwords ss)

end_word-IsWord : (s : Str) (ws : List Str) → is_empty s ≡ false → end_word s ws ≡ s ∷ ws
end_word-IsWord [] ws h = cc
end_word-IsWord (c ∷ s) ws h = refl

words_from-NoSpace :
    (word s t : Str)
    → NoSpace s
    → words_from word (s ++ (32 ∷ t)) ≡ end_word (word ++ s) (words_from [] t)
unfolding words_from is_whitespace
words_from-NoSpace word [] t h = ap (λ x. end_word x (words_from [] t)) (sym (append-nil word))
words_from-NoSpace word (c ∷ s) t (hc, h) = rw (hc) (
    words_from-NoSpace (word ++ (c ∷ [])) s t h
    ∙ ap (λ x. end_word x (words_from [] t)) (append_assoc word (c ∷ []) s))

pub split_whitespace-unwords : (ws : List Str) → All IsWord ws → split_whitespace (unwords ws) ≡ ws
unfolding split_whitespace words_from
split_whitespace-unwords [] h = refl
split_whitespace-unwords (s ∷ ss) ((nonempty, h), hs) =
    words_from-NoSpace [] s (unwords ss) h
    ∙ end_word-IsWord s (words_from [] (unwords ss)) nonempty
    ∙ ap (λ t. s ∷ t) (split_whitespace-unwords ss hs)

-- No line feed and no carriage return.
abbrev NoBreak : Str → Type 0
NoBreak s = All (λ (c : ℕ). ((c == 10) ≡ false) × ((c == 13) ≡ false)) s

not-whitespace : (c d : ℕ) → is_whitespace d ≡ true → is_whitespace c ≡ false → (c == d) ≡ false
not-whitespace c d hd hc = elim (Bool-cases (c == d)) [
  | inl same ↦ let e : c ≡ d = (==_iff c d).0 same in absurd cc
  | inr different ↦ different
]

NoBreak-append : (s t : Str) → NoBreak s → NoBreak t → NoBreak (s ++ t)
NoBreak-append [] t hs ht = ht
NoBreak-append (c ∷ s) t (hc, hs) ht = (hc, NoBreak-append s t hs ht)

NoBreak-NoSpace : (s : Str) → NoSpace s → NoBreak s
unfolding is_whitespace
NoBreak-NoSpace [] h = tt
NoBreak-NoSpace (c ∷ s) (hc, h) =
    ((not-whitespace c 10 refl hc, not-whitespace c 13 refl hc), NoBreak-NoSpace s h)

NoBreak-unwords : (ws : List Str) → All IsWord ws → NoBreak (unwords ws)
NoBreak-unwords [] h = tt
NoBreak-unwords (s ∷ ss) ((_, h), hs) =
    NoBreak-append s (32 ∷ unwords ss) (NoBreak-NoSpace s h) ((refl, refl), NoBreak-unwords ss hs)

cut_line-NoBreak : (s t : Str) → NoBreak s → cut_line (s ++ (10 ∷ t)) ≡ s
unfolding cut_line
cut_line-NoBreak [] t h = refl
cut_line-NoBreak (c ∷ s) t ((h10, h13), h) =
    rw (h10, h13) (ap (λ x. c ∷ x) (cut_line-NoBreak s t h))

first_line-cut : (s : Str) → is_empty s ≡ false → first_line s ≡ some (cut_line s)
unfolding first_line
first_line-cut [] h = cc
first_line-cut (c ∷ s) h = refl

pub first_line-unwords :
    (s : Str) (ss : List Str) (t : Str)
    → All IsWord (s ∷ ss)
    → first_line (unwords (s ∷ ss) ++ (10 ∷ t)) ≡ some (unwords (s ∷ ss))
first_line-unwords [] ss t ((h, _), _) = cc
first_line-unwords (c ∷ s) ss t h =
    first_line-cut (unwords ((c ∷ s) ∷ ss) ++ (10 ∷ t)) refl
    ∙ ap some (cut_line-NoBreak (unwords ((c ∷ s) ∷ ss)) t (NoBreak-unwords ((c ∷ s) ∷ ss) h))
