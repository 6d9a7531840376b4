-- ===== src/Examples/Desk.antt =====
-- The listener of a sign-in and the window of the widget on concrete values.
use magick_sentinel.Prelude.{
  ◌≡◌, ◌≤◌, refl, true, false, none, some, List, [], ◌∷◌, Text, text, text_eq, arith,
}
use magick_sentinel.Api.{encode_form}
use magick_sentinel.Api.Forms.{read_form, read_form-encode_form}
use magick_sentinel.Pkce.{percent_encode, malformed, split_once, split_on}
use magick_sentinel.Pkce.Callbacks.{redirect}
use magick_sentinel.Config.{starts_with}
use magick_sentinel.Loopback.{
  Incoming, line, received, gave_up, callback, wait_for_callback, request_target, trim_newlines,
}
use magick_sentinel.Loopback.Waiting.{IsElsewhere, browser_line, wait_for_callback_lem}
use magick_sentinel.SpoolKey as SpoolKey
use magick_sentinel.Credential as Credential
use magick_sentinel.Credential.{not_enrolled}
use magick_sentinel.Startup.{run, run_sources_iff, sourced, on_disk, tier_of, tier_b}
use magick_sentinel.Widget.{Rect, right, bottom, snap_to_edge}
use magick_sentinel.Widget.Snapping.{IsNear, snap_to_edge_rests}

abbrev icon : Incoming
icon = line (text "GET /favicon.ico HTTP/1.1")

icon-IsElsewhere : IsElsewhere icon
unfolding request_target text_eq split_once split_on trim_newlines starts_with
icon-IsElsewhere = (text "/favicon.ico", refl, refl)

wait_for_callback_lem_example :
    let browser = line (browser_line (redirect (text "4/0 x") (text "st"))) in
    (wait_for_callback (λ bs. bs) (icon ∷ browser ∷ [])
      ≡ received (record { code = text "4/0 x"; state = text "st" }))
    × (wait_for_callback (λ bs. bs) (icon ∷ line [] ∷ browser ∷ []) ≡ gave_up (callback malformed))
unfolding request_target split_on trim_newlines percent_encode
wait_for_callback_lem_example =
    wait_for_callback_lem (λ bs. bs) (icon ∷ []) [] [] 52 (text "/0 x") (text "st")
      (icon-IsElsewhere, tt) (omega arith) (omega arith) refl refl refl (omega arith)

abbrev screen : Rect
screen = record { x = 1000; y = 1000; width = 1920; height = 1040 }

abbrev widget : Rect
widget = record { x = 2595; y = 1500; width = 340; height = 140 }

snap_to_edge_rests_example :
    let rest = snap_to_edge widget screen 24 in
    (rest.width ≡ 340)
    × (rest.height ≡ 140)
    × (1000 ≤ rest.x)
    × (right rest ≤ right screen)
    × (1000 ≤ rest.y)
    × (bottom rest ≤ bottom screen)
    × (snap_to_edge rest screen 24 ≡ rest)
    × IsNear 2595 rest.x 340 1000 (right screen) 24
    × IsNear 1500 rest.y 140 1000 (bottom screen) 24
snap_to_edge_rests_example = snap_to_edge_rests widget screen 24 (omega arith) (omega arith)

abbrev form : List (Text × Text)
form = (text "code", text "4/0 x") ∷ (text "redirect_uri", text "http://127.0.0.1:1/callback") ∷ []

read_form-encode_form_example :
    read_form (λ bs. bs) (encode_form ((text "grant_type", text "authorization_code") ∷ form))
    ≡ some ((text "grant_type", text "authorization_code") ∷ form)
read_form-encode_form_example =
    read_form-encode_form (λ bs. bs) (text "grant_type", text "authorization_code") form
      ((omega arith, refl), (omega arith, refl))
      (((omega arith, refl), (omega arith, refl)), (((omega arith, refl), (omega arith, refl)), tt))

run_sources_iff_example :
    sourced (
      run
        (λ key. true)
        (λ t. true)
        (λ t uid. false)
        (SpoolKey.ok (text "key"))
        (Credential.err not_enrolled)
        none
        (some (text "B"))
        (some (text "agent-7")))
    ≡ some (on_disk (text "key"), tier_b, text "agent-7", false)
unfolding text_eq tier_of
run_sources_iff_example =
    (run_sources_iff (λ key. true) (λ t. true) (λ t uid. false) (SpoolKey.ok (text "key"))
        (Credential.err not_enrolled) none (some (text "B")) (some (text "agent-7"))
        (on_disk (text "key")) tier_b (text "agent-7") false).1
      (text "key", refl, refl, refl, refl, refl, refl, refl)
