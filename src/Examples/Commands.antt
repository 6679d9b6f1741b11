-- ===== src/Examples/Commands.antt =====
-- The commands that are run and scanned, on small inputs.
use mcptrust.Base.{
  ℕ, ◌≡◌, ◌≢◌, refl, ◌↔◌, ◌⊎◌, Bool, ◌||◌, true, false, List, [], ◌∷◌, ◌==◌, All, Bytes, codes,
  bytes_eq, contains, ok, err, has_prefix, split_last, inr,
}
use mcptrust.Runner.Command.{other_package, parse_server_command, validate_command_safety}
use mcptrust.Runner.Command.Words.{Word, bare, in_single, render_words, AreWords}
use mcptrust.Runner.Command.Split.{parse_server_command-render_words}
use mcptrust.Runner.Command.Safety.{visible, spaced_operators, validate_command_safety-render_words}
use mcptrust.Runner.Override.{
  NamesPinned, validate_artifact_match, validate_artifact_match-NamesPinned,
}
use mcptrust.Scanner.Command.{parse_command, parse_command-parse_server_command}
use mcptrust.Artifact.Reference.{OciImageRef, image_text, parse_oci_reference, parse_package_spec}
use mcptrust.Artifact.Image.{IsImage, parse_oci_reference-image_text}
use mcptrust.Artifact.Package.{package_text, parse_package_spec-package_text}

abbrev ascii_space : ℕ → Bool
ascii_space c = c == 32 || c == 9

-- npx 'a|b'
abbrev npx_word : Word
npx_word = bare b'n' ∷ bare b'p' ∷ bare b'x' ∷ []

abbrev first_words : List (Word × Bytes)
first_words = (npx_word, 32 ∷ []) ∷ []

abbrev last_word : Word
last_word = in_single (codes "a|b") ∷ []

first_words-AreWords : AreWords ascii_space first_words
first_words-AreWords = (
  (((refl, refl, refl), refl), (((refl, refl, refl), refl), (((refl, refl, refl), refl), tt))),
  (((refl, refl, refl), refl), tt),
  refl,
  tt,
)

parse_server_command-render_words_example :
    parse_server_command ascii_space (render_words first_words last_word)
    ≡ ok (codes "npx" ∷ codes "a|b" ∷ [])
parse_server_command-render_words_example =
    parse_server_command-render_words ascii_space [] first_words last_word tt first_words-AreWords
      ((refl, (refl, (refl, tt))), tt) refl

validate_command_safety-render_words_example :
    (validate_command_safety (render_words first_words last_word) ≡ ok tt) ↔ (
      (contains (render_words first_words last_word) (codes "`") ≡ false)
      × All (λ p. contains (visible first_words last_word) p ≡ false) spaced_operators)
validate_command_safety-render_words_example =
    validate_command_safety-render_words ascii_space [] first_words last_word tt
      first_words-AreWords ((refl, (refl, (refl, tt))), tt)

-- Another package is refused.
refused :
    validate_artifact_match ascii_space (codes "good") (codes "1") (codes "npx -y evil")
    ≡ err (other_package (codes "evil") (codes "good"))
unfolding validate_artifact_match parse_server_command bytes_eq has_prefix contains split_last
refused = refl

validate_artifact_match-NamesPinned_example :
    (validate_artifact_match ascii_space (codes "good") (codes "1") (codes "npx -y good@1") ≡ ok tt)
    ↔ ((false ≡ true)
        ⊎ ((args : List Bytes) × (parse_server_command ascii_space (codes "npx -y good@1")
              ≡ ok args)
            × NamesPinned (codes "good") (codes "1") args))
validate_artifact_match-NamesPinned_example =
    validate_artifact_match-NamesPinned (codes "good") (codes "1") ascii_space
      (codes "npx -y good@1")

parse_command-parse_server_command_example :
    parse_command (codes "a 'b'") ≡ codes "a" ∷ codes "b" ∷ []
unfolding parse_server_command
parse_command-parse_server_command_example =
    parse_command-parse_server_command ascii_space (codes "a 'b'") (codes "a" ∷ codes "b" ∷ [])
      ((refl, refl), ((refl, refl), ((refl, refl), ((refl, refl), ((refl, refl), tt))))) refl

-- The scan splits a command with an open quote; the run refuses it.
open_quote :
    (parse_command (codes "a 'b") ≡ codes "a" ∷ codes "b" ∷ [])
    × (parse_server_command ascii_space (codes "a 'b") ≢ ok (codes "a" ∷ codes "b" ∷ []))
unfolding parse_server_command parse_command
open_quote = (refl, λ e. cc)

parse_package_spec-package_text_example :
    parse_package_spec (package_text (codes "@a/b") (codes "1")) ≡ (codes "@a/b", codes "1")
parse_package_spec-package_text_example =
    parse_package_spec-package_text b'@' (codes "a/b") (codes "1") (refl, (refl, (refl, tt)))
      (refl, tt)

-- r.io/a:1
abbrev tagged_image : OciImageRef
tagged_image = record {
  registry = codes "r.io";
  repository = codes "a";
  tag = codes "1";
  digest = [];
}

tagged_image-IsImage : IsImage tagged_image
tagged_image-IsImage = record {
  repository_ne = refl;
  repository_colon = (refl, tt);
  repository_at = (refl, tt);
  path = inr (refl, (refl, (refl, (refl, (refl, tt)))), (refl, (refl, (refl, (refl, tt)))), refl);
  tag_slash = (refl, tt);
  tag_colon = (refl, tt);
  tag_at = (refl, tt);
  digest_at = tt;
  one_suffix = inr refl;
}

parse_oci_reference-image_text_example :
    parse_oci_reference ascii_space (image_text tagged_image) ≡ ok tagged_image
unfolding image_text
parse_oci_reference-image_text_example =
    parse_oci_reference-image_text ascii_space tagged_image tagged_image-IsImage
      (refl, (refl, (refl, (refl, (refl, (refl, (refl, (refl, tt))))))))
