-- ===== src/Loopback/Waiting.antt =====
-- What the listener of a sign-in waits for: client/sentinel-agent/src/auth/loopback.rs.
use magick_sentinel.Prelude.{
  zero, suc, ◌≤◌, length, take, ℕ, ◌≡◌, refl, ◌∙◌, ap, false, none, some, List, [], ◌∷◌, ◌++◌, Text,
  text, text_eq, Bytes, All, IsByte, append-nil, drop, arith,
}
use magick_sentinel.Whitespace.{is_empty}
use magick_sentinel.Pkce as Pkce
use magick_sentinel.Pkce.{
  Callback, wrong_path, malformed, split_once, split_on, parts, is_unreserved, percent_encode,
  parse_callback,
}
use magick_sentinel.Pkce.Coding.{Lacks, Lacks-percent_encode}
use magick_sentinel.Pkce.Callbacks.{
  redirect, parse_callback-redirect, split_on-append, split_on-Lacks,
}
use magick_sentinel.Loopback.{
  max_request_line, trim_newlines, target_of, request_target, Incoming, line, unread, accept_failed,
  received, gave_up, callback, parse_target, serve_one, wait_for_callback, ends_with, or_wait,
}

Lacks-append : (sep : ℕ) (s t : Text) → Lacks sep s → Lacks sep t → Lacks sep (s ++ t)
Lacks-append sep [] t h k = k
Lacks-append sep (c ∷ s) t (hc, h) k = (hc, Lacks-append sep s t h k)

abbrev http_version : Text
http_version = text " HTTP/1.1"

ends_visibly : (s : Text) → is_empty (s ++ http_version) ≡ false
ends_visibly [] = refl
ends_visibly (c ∷ s) = refl

trim_newlines-http_version :
    (s : Text) → trim_newlines (s ++ (http_version ++ (13 ∷ 10 ∷ []))) ≡ s ++ http_version
unfolding trim_newlines
trim_newlines-http_version [] = refl
trim_newlines-http_version (c ∷ s) =
    rw (trim_newlines-http_version s, ends_visibly s) (ground arith)

-- The request line of a browser for a target.
abbrev pub browser_line : Text → Text
browser_line target = text "GET " ++ (target ++ (http_version ++ (13 ∷ 10 ∷ [])))

request_target-browser_line :
    (c : ℕ) (target : Text)
    → Lacks 32 (c ∷ target)
    → request_target (browser_line (c ∷ target)) ≡ some (c ∷ target)
unfolding request_target text_eq
request_target-browser_line c target h =
    let t : Text = c ∷ target in
    let trimmed : trim_newlines (browser_line t) ≡ text "GET" ++ (32 ∷ (t ++ http_version)) =
      trim_newlines-http_version (text "GET " ++ t) in
    let method = split_on-append 32 (text "GET") (t ++ http_version) (refl, (refl, (refl, tt))) in
    let rest = split_on-append 32 t (text "HTTP/1.1") h in
    let last = split_on-Lacks 32 (text "HTTP/1.1") (ground arith) in
    ap (λ (x : Text). target_of (split_on 32 x)) trimmed
    ∙ ap target_of (
        method
        ∙ ap (λ (x : Text × List Text). (text "GET", parts x))
            (rest ∙ ap (λ (x : Text × List Text). (t, parts x)) last))

redirect-Lacks :
    (code state : Text) → All IsByte code → All IsByte state → Lacks 32 (redirect code state)
unfolding is_unreserved
redirect-Lacks code state hc hs =
    let head : Lacks 32 (text "/callback?code=") = ground arith in
    let middle : Lacks 32 (text "&state=") = ground arith in
    let coded : Lacks 32 (percent_encode state) =
      rw (append-nil (percent_encode state)) at
        (Lacks-percent_encode 32 state [] hs refl refl tt) in
    Lacks-append 32 (text "/callback?code=")
      (percent_encode code ++ (text "&state=" ++ percent_encode state)) head
      (Lacks-percent_encode 32 code (text "&state=" ++ percent_encode state) hc refl refl
        (Lacks-append 32 (text "&state=") (percent_encode state) middle coded))

take_whole : (n : ℕ) (s : Text) → length s ≤ n → take n s ≡ s
take_whole zero [] h = refl
take_whole (suc n) [] h = refl
take_whole zero (c ∷ s) h = absurd (omega arith)
take_whole (suc n) (c ∷ s) h = ap (λ (x : Text). c ∷ x) (take_whole n s (omega arith))

-- A request for another path, such as that for an icon.
abbrev pub IsElsewhere : Incoming → Type 0
IsElsewhere (line l) =
    (target : Text) × (request_target (take max_request_line l) ≡ some target)
    × (text_eq (split_once 63 target).0 (text "/callback") ≡ false)
IsElsewhere unread = ⊥
IsElsewhere accept_failed = ⊥

serve_one-IsElsewhere :
    (lossy : Bytes → Text) (l target : Text)
    → request_target (take max_request_line l) ≡ some target
    → text_eq (split_once 63 target).0 (text "/callback") ≡ false
    → serve_one lossy l ≡ Pkce.err (wrong_path (split_once 63 target).0)
unfolding serve_one parse_callback
serve_one-IsElsewhere lossy l target e other = rw e (rw other refl)

wait_for_callback-append :
    (lossy : Bytes → Text) (before after : List Incoming)
    → All IsElsewhere before
    → wait_for_callback lossy (before ++ after) ≡ wait_for_callback lossy after
unfolding wait_for_callback
wait_for_callback-append lossy [] after h = refl
wait_for_callback-append lossy (line l ∷ before) after ((target, e, other), h) =
    ap (λ r. or_wait (ends_with r) (wait_for_callback lossy (before ++ after)))
      (serve_one-IsElsewhere lossy l target e other)
    ∙ wait_for_callback-append lossy before after h
wait_for_callback-append lossy (unread ∷ before) after (h, k) = absurd h
wait_for_callback-append lossy (accept_failed ∷ before) after (h, k) = absurd h

-- After any requests for other paths, the redirect of an honest provider that the browser follows
-- ends the wait with the code and the state that it carries, whatever bytes they have, if the code
-- is not empty and the request line has at most 8 KiB; but a connection without a request line of the form that is wanted, such as one that
-- is closed before it sends anything, ends the wait with an error, even when the redirect follows.
pub wait_for_callback_lem :
    (lossy : Bytes → Text) (before after : List Incoming) (l : Text) (c : ℕ) (code state : Text)
    → All IsElsewhere before
    → All IsByte (c ∷ code)
    → All IsByte state
    → lossy (c ∷ code) ≡ c ∷ code
    → lossy state ≡ state
    → request_target (take max_request_line l) ≡ none
    → length (browser_line (redirect (c ∷ code) state)) ≤ max_request_line
    → let browser = line (browser_line (redirect (c ∷ code) state)) in
      (wait_for_callback lossy (before ++ (browser ∷ after))
        ≡ received (record { code = c ∷ code; state = state }))
      × (wait_for_callback lossy (before ++ (line l ∷ browser ∷ after))
          ≡ gave_up (callback malformed))
unfolding wait_for_callback serve_one
wait_for_callback_lem lossy before after l c code state h hc hs kc ks bad fits =
    let browser = line (browser_line (redirect (c ∷ code) state)) in
    let whole =
      ap request_target
        (take_whole max_request_line (browser_line (redirect (c ∷ code) state)) fits) in
    let target =
      whole
      ∙ request_target-browser_line 47 (drop 1 (redirect (c ∷ code) state))
          (redirect-Lacks (c ∷ code) state hc hs) in
    let later = wait_for_callback lossy after in
    (
      wait_for_callback-append lossy before (browser ∷ after) h
          ∙ ap (λ t. or_wait (ends_with (parse_target lossy t)) later) target
          ∙ ap (λ r. or_wait (ends_with r) later)
              (parse_callback-redirect lossy c code state hc hs kc ks),
      wait_for_callback-append lossy before (line l ∷ browser ∷ after) h
          ∙ ap
              (λ t.
                or_wait (ends_with (parse_target lossy t))
                  (wait_for_callback lossy (browser ∷ after)))
              bad,
    )
