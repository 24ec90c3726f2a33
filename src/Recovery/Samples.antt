-- ===== src/Recovery/Samples.antt =====
-- The search of a word in the words of internal/recovery/wordlist.go.
use slivingdoc.Base.{◌≡◌, ◌↔◌, refl, true, some, none, codes, get_elem?, bytes_less, bytes_beq}
use slivingdoc.Recovery.Words.{wordlist}
use slivingdoc.Recovery.Wordlist.{index, search_word, turn, compared, resumed}
use slivingdoc.Recovery.Wordlist.Search.{IsSorted, index_iff}
use slivingdoc.Recovery.Wordlist.Ordered.{ordered, ordered-IsSorted}

wordlist_ordered : ordered wordlist ≡ true
unfolding ordered bytes_less
wordlist_ordered = refl

wordlist-IsSorted : IsSorted wordlist
wordlist-IsSorted = ordered-IsSorted wordlist wordlist_ordered

index_of_zebra : index wordlist (codes "zebra") ≡ some 2044
unfolding index search_word turn compared resumed bytes_less bytes_beq
index_of_zebra = refl

index_of_unknown : index wordlist (codes "zebras") ≡ none
unfolding index search_word turn compared resumed bytes_less bytes_beq
index_of_unknown = refl

index_iff_example :
    (index wordlist (codes "zebra") ≡ some 2044) ↔ (get_elem? wordlist 2044 ≡ some (codes "zebra"))
index_iff_example = index_iff wordlist (codes "zebra") 2044 wordlist-IsSorted
