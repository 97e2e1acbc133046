-- ===== src/Enrichment/Command/Tests.antt =====
-- Runs of the command extractor, and its theorems at concrete inputs.
use mathlib.Core.Option
use bastion.Base.{
  ◌≡◌, refl, true, false, [], ◌∷◌, List, map, any, All, Option, none, some, Text, codes, arith,
}
use bastion.Base.Chars.{is_whitespace}
use bastion.Rules.Facts.{Fact}
use bastion.Enrichment.Command.Tokenizer.{
  ok, err, unsafe_token, command_too_long, empty_command, unclosed_quote, is_unsafe, tokenize,
}
use bastion.Enrichment.Command.Tokenizer.Quoted.{command_of, tokenize-command_of}
use bastion.Enrichment.Command.Tokenizer.Safe.{words_from, tokenize-words}
use bastion.Enrichment.Command.Classifier.{CommandExtractorPolicy, classify, extract_command}
use bastion.Enrichment.Command.Classifier.Gates.{permits, classify-permits}

tokenize_test :
    (tokenize (codes "mvn 'a b' x\"c\\\"d\" \\ y") 64 4096
      ≡ ok (codes "mvn" ∷ codes "a b" ∷ codes "xc\"d" ∷ codes " " ∷ codes "y" ∷ []))
    × (tokenize (codes "ls $HOME") 64 4096 ≡ err (unsafe_token b'$'))
    × (tokenize (codes "a 'b") 64 4096 ≡ err (unclosed_quote (codes "'b")))
    × (tokenize (codes "a b c") 2 4096 ≡ err (command_too_long 3 5))
    × (tokenize [] 2 4096 ≡ err empty_command)
unfolding tokenize is_whitespace
tokenize_test = (refl, refl, refl, refl, refl)

abbrev policy : CommandExtractorPolicy
policy = record {
  allow_flags = true;
  allow_options = false;
  allow_targets = true;
  max_tokens = 64;
  max_input_len = 4096;
  goal_map = none;
}

abbrev keys_and_values : Option (List Fact) → Option (List (Text × Text))
keys_and_values facts = Option.map (map (λ f. (f.key, f.value))) facts

extract_test :
    keys_and_values (extract_command (codes "command") policy (codes "mvn test -Da=b --x=y -q mod"))
    ≡ some (
        (codes "command_executable", codes "mvn")
        ∷ (codes "command_tool", codes "maven")
        ∷ (codes "command_goal", codes "test")
        ∷ (codes "command_intent", codes "test")
        ∷ (codes "command_flag", codes "x=y")
        ∷ (codes "command_flag", codes "q")
        ∷ (codes "command_target", codes "mod")
        ∷ [])
unfolding extract_command is_whitespace
extract_test = refl

refused_test :
    keys_and_values (extract_command (codes "command") policy (codes "a|b"))
    ≡ some ((codes "unsafe_token", codes "|") ∷ [])
unfolding extract_command is_whitespace
refused_test = refl

tokenize-command_of_example :
    tokenize (command_of (codes "a \"b\"" ∷ codes "it's" ∷ [])) 2 100
    ≡ ok (codes "a \"b\"" ∷ codes "it's" ∷ [])
tokenize-command_of_example =
    tokenize-command_of (codes "a \"b\"") (codes "it's" ∷ []) 2 100 (omega arith) (omega arith)

plain_command : tokenize (codes "ls  -l") 64 4096 ≡ ok (codes "ls" ∷ codes "-l" ∷ [])
unfolding tokenize is_whitespace
plain_command = refl

tokenize-words_example :
    (any is_unsafe (codes "ls  -l") ≡ false)
    × (codes "ls" ∷ codes "-l" ∷ [] ≡ words_from [] (codes "ls  -l"))
tokenize-words_example =
    tokenize-words (codes "ls  -l") 64 4096 (codes "ls" ∷ codes "-l" ∷ []) refl plain_command

classify-permits_example :
    All
      (λ (f : Fact). permits policy f.key ≡ true)
      (classify
        (codes "mvn" ∷ codes "test" ∷ codes "-Da=b" ∷ codes "-q" ∷ [])
        policy
        (codes "command"))
classify-permits_example =
    classify-permits policy (codes "command")
      (codes "mvn" ∷ codes "test" ∷ codes "-Da=b" ∷ codes "-q" ∷ [])
