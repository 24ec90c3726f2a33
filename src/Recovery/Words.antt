-- ===== src/Recovery/Words.antt =====
-- internal/recovery/wordlist.go: the words of a recovery code.
use slivingdoc.Base.{List, [], ◌∷◌, Bytes, codes}

abbrev pub wordlist : List Bytes
wordlist =
    codes "abandon"
    ∷ codes "ability"
    ∷ codes "able"
    ∷ codes "about"
    ∷ codes "above"
    ∷ codes "absent"
    ∷ codes "absorb"
    ∷ codes "abstract"
    ∷ codes "absurd"
    ∷ codes "abuse"
    ∷ codes "access"
    ∷ codes "accident"
    ∷ codes "account"
    ∷ codes "accuse"
    ∷ codes "achieve"
    ∷ codes "acid"
    ∷ codes "acoustic"
    ∷ codes "acquire"
    ∷ codes "across"
    ∷ codes "act"
    ∷ codes "action"
    ∷ codes "actor"
    ∷ codes "actress"
    ∷ codes "actual"
    ∷ codes "adapt"
    ∷ codes "add"
    ∷ codes "addict"
    ∷ codes "address"
    ∷ codes "adjust"
    ∷ codes "admit"
    ∷ codes "adult"
    ∷ codes "advance"
    ∷ codes "advice"
    ∷ codes "aerobic"
    ∷ codes "affair"
    ∷ codes "afford"
    ∷ codes "afraid"
    ∷ codes "again"
    ∷ codes "age"
    ∷ codes "agent"
    ∷ codes "agree"
    ∷ codes "ahead"
    ∷ codes "aim"
    ∷ codes "air"
    ∷ codes "airport"
    ∷ codes "aisle"
    ∷ codes "alarm"
    ∷ codes "album"
    ∷ codes "alcohol"
    ∷ codes "alert"
    ∷ codes "alien"
    ∷ codes "all"
    ∷ codes "alley"
    ∷ codes "allow"
    ∷ codes "almost"
    ∷ codes "alone"
    ∷ codes "alpha"
    ∷ codes "already"
    ∷ codes "also"
    ∷ codes "alter"
    ∷ codes "always"
    ∷ codes "amateur"
    ∷ codes "amazing"
    ∷ codes "among"
    ∷ codes "amount"
    ∷ codes "amused"
    ∷ codes "analyst"
    ∷ codes "anchor"
    ∷ codes "ancient"
    ∷ codes "anger"
    ∷ codes "angle"
    ∷ codes "angry"
    ∷ codes "animal"
    ∷ codes "ankle"
    ∷ codes "announce"
    ∷ codes "annual"
    ∷ codes "another"
    ∷ codes "answer"
    ∷ codes "antenna"
    ∷ codes "antique"
    ∷ codes "anxiety"
    ∷ codes "any"
    ∷ codes "apart"
    ∷ codes "apology"
    ∷ codes "appear"
    ∷ codes "apple"
    ∷ codes "approve"
    ∷ codes "april"
    ∷ codes "arch"
    ∷ codes "arctic"
    ∷ codes "area"
    ∷ codes "arena"
    ∷ codes "argue"
    ∷ codes "arm"
    ∷ codes "armed"
    ∷ codes "armor"
    ∷ codes "army"
    ∷ codes "around"
    ∷ codes "arrange"
    ∷ codes "arrest"
    ∷ codes "arrive"
    ∷ codes "arrow"
    ∷ codes "art"
    ∷ codes "artefact"
    ∷ codes "artist"
    ∷ codes "artwork"
    ∷ codes "ask"
    ∷ codes "aspect"
    ∷ codes "assault"
    ∷ codes "asset"
    ∷ codes "assist"
    ∷ codes "assume"
    ∷ codes "asthma"
    ∷ codes "athlete"
    ∷ codes "atom"
    ∷ codes "attack"
    ∷ codes "attend"
    ∷ codes "attitude"
    ∷ codes "attract"
    ∷ codes "auction"
    ∷ codes "audit"
    ∷ codes "august"
    ∷ codes "aunt"
    ∷ codes "author"
    ∷ codes "auto"
    ∷ codes "autumn"
    ∷ codes "average"
    ∷ codes "avocado"
    ∷ codes "avoid"
    ∷ codes "awake"
    ∷ codes "aware"
    ∷ codes "away"
    ∷ codes "awesome"
    ∷ codes "awful"
    ∷ codes "awkward"
    ∷ codes "axis"
    ∷ codes "baby"
    ∷ codes "bachelor"
    ∷ codes "bacon"
    ∷ codes "badge"
    ∷ codes "bag"
    ∷ codes "balance"
    ∷ codes "balcony"
    ∷ codes "ball"
    ∷ codes "bamboo"
    ∷ codes "banana"
    ∷ codes "banner"
    ∷ codes "bar"
    ∷ codes "barely"
    ∷ codes "bargain"
    ∷ codes "barrel"
    ∷ codes "base"
    ∷ codes "basic"
    ∷ codes "basket"
    ∷ codes "battle"
    ∷ codes "beach"
    ∷ codes "bean"
    ∷ codes "beauty"
    ∷ codes "because"
    ∷ codes "become"
    ∷ codes "beef"
    ∷ codes "before"
    ∷ codes "begin"
    ∷ codes "behave"
    ∷ codes "behind"
    ∷ codes "believe"
    ∷ codes "below"
    ∷ codes "belt"
    ∷ codes "bench"
    ∷ codes "benefit"
    ∷ codes "best"
    ∷ codes "betray"
    ∷ codes "better"
    ∷ codes "between"
    ∷ codes "beyond"
    ∷ codes "bicycle"
    ∷ codes "bid"
    ∷ codes "bike"
    ∷ codes "bind"
    ∷ codes "biology"
    ∷ codes "bird"
    ∷ codes "birth"
    ∷ codes "bitter"
    ∷ codes "black"
    ∷ codes "blade"
    ∷ codes "blame"
    ∷ codes "blanket"
    ∷ codes "blast"
    ∷ codes "bleak"
    ∷ codes "bless"
    ∷ codes "blind"
    ∷ codes "blood"
    ∷ codes "blossom"
    ∷ codes "blouse"
    ∷ codes "blue"
    ∷ codes "blur"
    ∷ codes "blush"
    ∷ codes "board"
    ∷ codes "boat"
    ∷ codes "body"
    ∷ codes "boil"
    ∷ codes "bomb"
    ∷ codes "bone"
    ∷ codes "bonus"
    ∷ codes "book"
    ∷ codes "boost"
    ∷ codes "border"
    ∷ codes "boring"
    ∷ codes "borrow"
    ∷ codes "boss"
    ∷ codes "bottom"
    ∷ codes "bounce"
    ∷ codes "box"
    ∷ codes "boy"
    ∷ codes "bracket"
    ∷ codes "brain"
    ∷ codes "brand"
    ∷ codes "brass"
    ∷ codes "brave"
    ∷ codes "bread"
    ∷ codes "breeze"
    ∷ codes "brick"
    ∷ codes "bridge"
    ∷ codes "brief"
    ∷ codes "bright"
    ∷ codes "bring"
    ∷ codes "brisk"
    ∷ codes "broccoli"
    ∷ codes "broken"
    ∷ codes "bronze"
    ∷ codes "broom"
    ∷ codes "brother"
    ∷ codes "brown"
    ∷ codes "brush"
    ∷ codes "bubble"
    ∷ codes "buddy"
    ∷ codes "budget"
    ∷ codes "buffalo"
    ∷ codes "build"
    ∷ codes "bulb"
    ∷ codes "bulk"
    ∷ codes "bullet"
    ∷ codes "bundle"
    ∷ codes "bunker"
    ∷ codes "burden"
    ∷ codes "burger"
    ∷ codes "burst"
    ∷ codes "bus"
    ∷ codes "business"
    ∷ codes "busy"
    ∷ codes "butter"
    ∷ codes "buyer"
    ∷ codes "buzz"
    ∷ codes "cabbage"
    ∷ codes "cabin"
    ∷ codes "cable"
    ∷ codes "cactus"
    ∷ codes "cage"
    ∷ codes "cake"
    ∷ codes "call"
    ∷ codes "calm"
    ∷ codes "camera"
    ∷ codes "camp"
    ∷ codes "can"
    ∷ codes "canal"
    ∷ codes "cancel"
    ∷ codes "candy"
    ∷ codes "cannon"
    ∷ codes "canoe"
    ∷ codes "canvas"
    ∷ codes "canyon"
    ∷ codes "capable"
    ∷ codes "capital"
    ∷ codes "captain"
    ∷ codes "car"
    ∷ codes "carbon"
    ∷ codes "card"
    ∷ codes "cargo"
    ∷ codes "carpet"
    ∷ codes "carry"
    ∷ codes "cart"
    ∷ codes "case"
    ∷ codes "cash"
    ∷ codes "casino"
    ∷ codes "castle"
    ∷ codes "casual"
    ∷ codes "cat"
    ∷ codes "catalog"
    ∷ codes "catch"
    ∷ codes "category"
    ∷ codes "cattle"
    ∷ codes "caught"
    ∷ codes "cause"
    ∷ codes "caution"
    ∷ codes "cave"
    ∷ codes "ceiling"
    ∷ codes "celery"
    ∷ codes "cement"
    ∷ codes "census"
    ∷ codes "century"
    ∷ codes "cereal"
    ∷ codes "certain"
    ∷ codes "chair"
    ∷ codes "chalk"
    ∷ codes "champion"
    ∷ codes "change"
    ∷ codes "chaos"
    ∷ codes "chapter"
    ∷ codes "charge"
    ∷ codes "chase"
    ∷ codes "chat"
    ∷ codes "cheap"
    ∷ codes "check"
    ∷ codes "cheese"
    ∷ codes "chef"
    ∷ codes "cherry"
    ∷ codes "chest"
    ∷ codes "chicken"
    ∷ codes "chief"
    ∷ codes "child"
    ∷ codes "chimney"
    ∷ codes "choice"
    ∷ codes "choose"
    ∷ codes "chronic"
    ∷ codes "chuckle"
    ∷ codes "chunk"
    ∷ codes "churn"
    ∷ codes "cigar"
    ∷ codes "cinnamon"
    ∷ codes "circle"
    ∷ codes "citizen"
    ∷ codes "city"
    ∷ codes "civil"
    ∷ codes "claim"
    ∷ codes "clap"
    ∷ codes "clarify"
    ∷ codes "claw"
    ∷ codes "clay"
    ∷ codes "clean"
    ∷ codes "clerk"
    ∷ codes "clever"
    ∷ codes "click"
    ∷ codes "client"
    ∷ codes "cliff"
    ∷ codes "climb"
    ∷ codes "clinic"
    ∷ codes "clip"
    ∷ codes "clock"
    ∷ codes "clog"
    ∷ codes "close"
    ∷ codes "cloth"
    ∷ codes "cloud"
    ∷ codes "clown"
    ∷ codes "club"
    ∷ codes "clump"
    ∷ codes "cluster"
    ∷ codes "clutch"
    ∷ codes "coach"
    ∷ codes "coast"
    ∷ codes "coconut"
    ∷ codes "code"
    ∷ codes "coffee"
    ∷ codes "coil"
    ∷ codes "coin"
    ∷ codes "collect"
    ∷ codes "color"
    ∷ codes "column"
    ∷ codes "combine"
    ∷ codes "come"
    ∷ codes "comfort"
    ∷ codes "comic"
    ∷ codes "common"
    ∷ codes "company"
    ∷ codes "concert"
    ∷ codes "conduct"
    ∷ codes "confirm"
    ∷ codes "congress"
    ∷ codes "connect"
    ∷ codes "consider"
    ∷ codes "control"
    ∷ codes "convince"
    ∷ codes "cook"
    ∷ codes "cool"
    ∷ codes "copper"
    ∷ codes "copy"
    ∷ codes "coral"
    ∷ codes "core"
    ∷ codes "corn"
    ∷ codes "correct"
    ∷ codes "cost"
    ∷ codes "cotton"
    ∷ codes "couch"
    ∷ codes "country"
    ∷ codes "couple"
    ∷ codes "course"
    ∷ codes "cousin"
    ∷ codes "cover"
    ∷ codes "coyote"
    ∷ codes "crack"
    ∷ codes "cradle"
    ∷ codes "craft"
    ∷ codes "cram"
    ∷ codes "crane"
    ∷ codes "crash"
    ∷ codes "crater"
    ∷ codes "crawl"
    ∷ codes "crazy"
    ∷ codes "cream"
    ∷ codes "credit"
    ∷ codes "creek"
    ∷ codes "crew"
    ∷ codes "cricket"
    ∷ codes "crime"
    ∷ codes "crisp"
    ∷ codes "critic"
    ∷ codes "crop"
    ∷ codes "cross"
    ∷ codes "crouch"
    ∷ codes "crowd"
    ∷ codes "crucial"
    ∷ codes "cruel"
    ∷ codes "cruise"
    ∷ codes "crumble"
    ∷ codes "crunch"
    ∷ codes "crush"
    ∷ codes "cry"
    ∷ codes "crystal"
    ∷ codes "cube"
    ∷ codes "culture"
    ∷ codes "cup"
    ∷ codes "cupboard"
    ∷ codes "curious"
    ∷ codes "current"
    ∷ codes "curtain"
    ∷ codes "curve"
    ∷ codes "cushion"
    ∷ codes "custom"
    ∷ codes "cute"
    ∷ codes "cycle"
    ∷ codes "dad"
    ∷ codes "damage"
    ∷ codes "damp"
    ∷ codes "dance"
    ∷ codes "danger"
    ∷ codes "daring"
    ∷ codes "dash"
    ∷ codes "daughter"
    ∷ codes "dawn"
    ∷ codes "day"
    ∷ codes "deal"
    ∷ codes "debate"
    ∷ codes "debris"
    ∷ codes "decade"
    ∷ codes "december"
    ∷ codes "decide"
    ∷ codes "decline"
    ∷ codes "decorate"
    ∷ codes "decrease"
    ∷ codes "deer"
    ∷ codes "defense"
    ∷ codes "define"
    ∷ codes "defy"
    ∷ codes "degree"
    ∷ codes "delay"
    ∷ codes "deliver"
    ∷ codes "demand"
    ∷ codes "demise"
    ∷ codes "denial"
    ∷ codes "dentist"
    ∷ codes "deny"
    ∷ codes "depart"
    ∷ codes "depend"
    ∷ codes "deposit"
    ∷ codes "depth"
    ∷ codes "deputy"
    ∷ codes "derive"
    ∷ codes "describe"
    ∷ codes "desert"
    ∷ codes "design"
    ∷ codes "desk"
    ∷ codes "despair"
    ∷ codes "destroy"
    ∷ codes "detail"
    ∷ codes "detect"
    ∷ codes "develop"
    ∷ codes "device"
    ∷ codes "devote"
    ∷ codes "diagram"
    ∷ codes "dial"
    ∷ codes "diamond"
    ∷ codes "diary"
    ∷ codes "dice"
    ∷ codes "diesel"
    ∷ codes "diet"
    ∷ codes "differ"
    ∷ codes "digital"
    ∷ codes "dignity"
    ∷ codes "dilemma"
    ∷ codes "dinner"
    ∷ codes "dinosaur"
    ∷ codes "direct"
    ∷ codes "dirt"
    ∷ codes "disagree"
    ∷ codes "discover"
    ∷ codes "disease"
    ∷ codes "dish"
    ∷ codes "dismiss"
    ∷ codes "disorder"
    ∷ codes "display"
    ∷ codes "distance"
    ∷ codes "divert"
    ∷ codes "divide"
    ∷ codes "divorce"
    ∷ codes "dizzy"
    ∷ codes "doctor"
    ∷ codes "document"
    ∷ codes "dog"
    ∷ codes "doll"
    ∷ codes "dolphin"
    ∷ codes "domain"
    ∷ codes "donate"
    ∷ codes "donkey"
    ∷ codes "donor"
    ∷ codes "door"
    ∷ codes "dose"
    ∷ codes "double"
    ∷ codes "dove"
    ∷ codes "draft"
    ∷ codes "dragon"
    ∷ codes "drama"
    ∷ codes "drastic"
    ∷ codes "draw"
    ∷ codes "dream"
    ∷ codes "dress"
    ∷ codes "drift"
    ∷ codes "drill"
    ∷ codes "drink"
    ∷ codes "drip"
    ∷ codes "drive"
    ∷ codes "drop"
    ∷ codes "drum"
    ∷ codes "dry"
    ∷ codes "duck"
    ∷ codes "dumb"
    ∷ codes "dune"
    ∷ codes "during"
    ∷ codes "dust"
    ∷ codes "dutch"
    ∷ codes "duty"
    ∷ codes "dwarf"
    ∷ codes "dynamic"
    ∷ codes "eager"
    ∷ codes "eagle"
    ∷ codes "early"
    ∷ codes "earn"
    ∷ codes "earth"
    ∷ codes "easily"
    ∷ codes "east"
    ∷ codes "easy"
    ∷ codes "echo"
    ∷ codes "ecology"
    ∷ codes "economy"
    ∷ codes "edge"
    ∷ codes "edit"
    ∷ codes "educate"
    ∷ codes "effort"
    ∷ codes "egg"
    ∷ codes "eight"
    ∷ codes "either"
    ∷ codes "elbow"
    ∷ codes "elder"
    ∷ codes "electric"
    ∷ codes "elegant"
    ∷ codes "element"
    ∷ codes "elephant"
    ∷ codes "elevator"
    ∷ codes "elite"
    ∷ codes "else"
    ∷ codes "embark"
    ∷ codes "embody"
    ∷ codes "embrace"
    ∷ codes "emerge"
    ∷ codes "emotion"
    ∷ codes "employ"
    ∷ codes "empower"
    ∷ codes "empty"
    ∷ codes "enable"
    ∷ codes "enact"
    ∷ codes "end"
    ∷ codes "endless"
    ∷ codes "endorse"
    ∷ codes "enemy"
    ∷ codes "energy"
    ∷ codes "enforce"
    ∷ codes "engage"
    ∷ codes "engine"
    ∷ codes "enhance"
    ∷ codes "enjoy"
    ∷ codes "enlist"
    ∷ codes "enough"
    ∷ codes "enrich"
    ∷ codes "enroll"
    ∷ codes "ensure"
    ∷ codes "enter"
    ∷ codes "entire"
    ∷ codes "entry"
    ∷ codes "envelope"
    ∷ codes "episode"
    ∷ codes "equal"
    ∷ codes "equip"
    ∷ codes "era"
    ∷ codes "erase"
    ∷ codes "erode"
    ∷ codes "erosion"
    ∷ codes "error"
    ∷ codes "erupt"
    ∷ codes "escape"
    ∷ codes "essay"
    ∷ codes "essence"
    ∷ codes "estate"
    ∷ codes "eternal"
    ∷ codes "ethics"
    ∷ codes "evidence"
    ∷ codes "evil"
    ∷ codes "evoke"
    ∷ codes "evolve"
    ∷ codes "exact"
    ∷ codes "example"
    ∷ codes "excess"
    ∷ codes "exchange"
    ∷ codes "excite"
    ∷ codes "exclude"
    ∷ codes "excuse"
    ∷ codes "execute"
    ∷ codes "exercise"
    ∷ codes "exhaust"
    ∷ codes "exhibit"
    ∷ codes "exile"
    ∷ codes "exist"
    ∷ codes "exit"
    ∷ codes "exotic"
    ∷ codes "expand"
    ∷ codes "expect"
    ∷ codes "expire"
    ∷ codes "explain"
    ∷ codes "expose"
    ∷ codes "express"
    ∷ codes "extend"
    ∷ codes "extra"
    ∷ codes "eye"
    ∷ codes "eyebrow"
    ∷ codes "fabric"
    ∷ codes "face"
    ∷ codes "faculty"
    ∷ codes "fade"
    ∷ codes "faint"
    ∷ codes "faith"
    ∷ codes "fall"
    ∷ codes "false"
    ∷ codes "fame"
    ∷ codes "family"
    ∷ codes "famous"
    ∷ codes "fan"
    ∷ codes "fancy"
    ∷ codes "fantasy"
    ∷ codes "farm"
    ∷ codes "fashion"
    ∷ codes "fat"
    ∷ codes "fatal"
    ∷ codes "father"
    ∷ codes "fatigue"
    ∷ codes "fault"
    ∷ codes "favorite"
    ∷ codes "feature"
    ∷ codes "february"
    ∷ codes "federal"
    ∷ codes "fee"
    ∷ codes "feed"
    ∷ codes "feel"
    ∷ codes "female"
    ∷ codes "fence"
    ∷ codes "festival"
    ∷ codes "fetch"
    ∷ codes "fever"
    ∷ codes "few"
    ∷ codes "fiber"
    ∷ codes "fiction"
    ∷ codes "field"
    ∷ codes "figure"
    ∷ codes "file"
    ∷ codes "film"
    ∷ codes "filter"
    ∷ codes "final"
    ∷ codes "find"
    ∷ codes "fine"
    ∷ codes "finger"
    ∷ codes "finish"
    ∷ codes "fire"
    ∷ codes "firm"
    ∷ codes "first"
    ∷ codes "fiscal"
    ∷ codes "fish"
    ∷ codes "fit"
    ∷ codes "fitness"
    ∷ codes "fix"
    ∷ codes "flag"
    ∷ codes "flame"
    ∷ codes "flash"
    ∷ codes "flat"
    ∷ codes "flavor"
    ∷ codes "flee"
    ∷ codes "flight"
    ∷ codes "flip"
    ∷ codes "float"
    ∷ codes "flock"
    ∷ codes "floor"
    ∷ codes "flower"
    ∷ codes "fluid"
    ∷ codes "flush"
    ∷ codes "fly"
    ∷ codes "foam"
    ∷ codes "focus"
    ∷ codes "fog"
    ∷ codes "foil"
    ∷ codes "fold"
    ∷ codes "follow"
    ∷ codes "food"
    ∷ codes "foot"
    ∷ codes "force"
    ∷ codes "forest"
    ∷ codes "forget"
    ∷ codes "fork"
    ∷ codes "fortune"
    ∷ codes "forum"
    ∷ codes "forward"
    ∷ codes "fossil"
    ∷ codes "foster"
    ∷ codes "found"
    ∷ codes "fox"
    ∷ codes "fragile"
    ∷ codes "frame"
    ∷ codes "frequent"
    ∷ codes "fresh"
    ∷ codes "friend"
    ∷ codes "fringe"
    ∷ codes "frog"
    ∷ codes "front"
    ∷ codes "frost"
    ∷ codes "frown"
    ∷ codes "frozen"
    ∷ codes "fruit"
    ∷ codes "fuel"
    ∷ codes "fun"
    ∷ codes "funny"
    ∷ codes "furnace"
    ∷ codes "fury"
    ∷ codes "future"
    ∷ codes "gadget"
    ∷ codes "gain"
    ∷ codes "galaxy"
    ∷ codes "gallery"
    ∷ codes "game"
    ∷ codes "gap"
    ∷ codes "garage"
    ∷ codes "garbage"
    ∷ codes "garden"
    ∷ codes "garlic"
    ∷ codes "garment"
    ∷ codes "gas"
    ∷ codes "gasp"
    ∷ codes "gate"
    ∷ codes "gather"
    ∷ codes "gauge"
    ∷ codes "gaze"
    ∷ codes "general"
    ∷ codes "genius"
    ∷ codes "genre"
    ∷ codes "gentle"
    ∷ codes "genuine"
    ∷ codes "gesture"
    ∷ codes "ghost"
    ∷ codes "giant"
    ∷ codes "gift"
    ∷ codes "giggle"
    ∷ codes "ginger"
    ∷ codes "giraffe"
    ∷ codes "girl"
    ∷ codes "give"
    ∷ codes "glad"
    ∷ codes "glance"
    ∷ codes "glare"
    ∷ codes "glass"
    ∷ codes "glide"
    ∷ codes "glimpse"
    ∷ codes "globe"
    ∷ codes "gloom"
    ∷ codes "glory"
    ∷ codes "glove"
    ∷ codes "glow"
    ∷ codes "glue"
    ∷ codes "goat"
    ∷ codes "goddess"
    ∷ codes "gold"
    ∷ codes "good"
    ∷ codes "goose"
    ∷ codes "gorilla"
    ∷ codes "gospel"
    ∷ codes "gossip"
    ∷ codes "govern"
    ∷ codes "gown"
    ∷ codes "grab"
    ∷ codes "grace"
    ∷ codes "grain"
    ∷ codes "grant"
    ∷ codes "grape"
    ∷ codes "grass"
    ∷ codes "gravity"
    ∷ codes "great"
    ∷ codes "green"
    ∷ codes "grid"
    ∷ codes "grief"
    ∷ codes "grit"
    ∷ codes "grocery"
    ∷ codes "group"
    ∷ codes "grow"
    ∷ codes "grunt"
    ∷ codes "guard"
    ∷ codes "guess"
    ∷ codes "guide"
    ∷ codes "guilt"
    ∷ codes "guitar"
    ∷ codes "gun"
    ∷ codes "gym"
    ∷ codes "habit"
    ∷ codes "hair"
    ∷ codes "half"
    ∷ codes "hammer"
    ∷ codes "hamster"
    ∷ codes "hand"
    ∷ codes "happy"
    ∷ codes "harbor"
    ∷ codes "hard"
    ∷ codes "harsh"
    ∷ codes "harvest"
    ∷ codes "hat"
    ∷ codes "have"
    ∷ codes "hawk"
    ∷ codes "hazard"
    ∷ codes "head"
    ∷ codes "health"
    ∷ codes "heart"
    ∷ codes "heavy"
    ∷ codes "hedgehog"
    ∷ codes "height"
    ∷ codes "hello"
    ∷ codes "helmet"
    ∷ codes "help"
    ∷ codes "hen"
    ∷ codes "hero"
    ∷ codes "hidden"
    ∷ codes "high"
    ∷ codes "hill"
    ∷ codes "hint"
    ∷ codes "hip"
    ∷ codes "hire"
    ∷ codes "history"
    ∷ codes "hobby"
    ∷ codes "hockey"
    ∷ codes "hold"
    ∷ codes "hole"
    ∷ codes "holiday"
    ∷ codes "hollow"
    ∷ codes "home"
    ∷ codes "honey"
    ∷ codes "hood"
    ∷ codes "hope"
    ∷ codes "horn"
    ∷ codes "horror"
    ∷ codes "horse"
    ∷ codes "hospital"
    ∷ codes "host"
    ∷ codes "hotel"
    ∷ codes "hour"
    ∷ codes "hover"
    ∷ codes "hub"
    ∷ codes "huge"
    ∷ codes "human"
    ∷ codes "humble"
    ∷ codes "humor"
    ∷ codes "hundred"
    ∷ codes "hungry"
    ∷ codes "hunt"
    ∷ codes "hurdle"
    ∷ codes "hurry"
    ∷ codes "hurt"
    ∷ codes "husband"
    ∷ codes "hybrid"
    ∷ codes "ice"
    ∷ codes "icon"
    ∷ codes "idea"
    ∷ codes "identify"
    ∷ codes "idle"
    ∷ codes "ignore"
    ∷ codes "ill"
    ∷ codes "illegal"
    ∷ codes "illness"
    ∷ codes "image"
    ∷ codes "imitate"
    ∷ codes "immense"
    ∷ codes "immune"
    ∷ codes "impact"
    ∷ codes "impose"
    ∷ codes "improve"
    ∷ codes "impulse"
    ∷ codes "inch"
    ∷ codes "include"
    ∷ codes "income"
    ∷ codes "increase"
    ∷ codes "index"
    ∷ codes "indicate"
    ∷ codes "indoor"
    ∷ codes "industry"
    ∷ codes "infant"
    ∷ codes "inflict"
    ∷ codes "inform"
    ∷ codes "inhale"
    ∷ codes "inherit"
    ∷ codes "initial"
    ∷ codes "inject"
    ∷ codes "injury"
    ∷ codes "inmate"
    ∷ codes "inner"
    ∷ codes "innocent"
    ∷ codes "input"
    ∷ codes "inquiry"
    ∷ codes "insane"
    ∷ codes "insect"
    ∷ codes "inside"
    ∷ codes "inspire"
    ∷ codes "install"
    ∷ codes "intact"
    ∷ codes "interest"
    ∷ codes "into"
    ∷ codes "invest"
    ∷ codes "invite"
    ∷ codes "involve"
    ∷ codes "iron"
    ∷ codes "island"
    ∷ codes "isolate"
    ∷ codes "issue"
    ∷ codes "item"
    ∷ codes "ivory"
    ∷ codes "jacket"
    ∷ codes "jaguar"
    ∷ codes "jar"
    ∷ codes "jazz"
    ∷ codes "jealous"
    ∷ codes "jeans"
    ∷ codes "jelly"
    ∷ codes "jewel"
    ∷ codes "job"
    ∷ codes "join"
    ∷ codes "joke"
    ∷ codes "journey"
    ∷ codes "joy"
    ∷ codes "judge"
    ∷ codes "juice"
    ∷ codes "jump"
    ∷ codes "jungle"
    ∷ codes "junior"
    ∷ codes "junk"
    ∷ codes "just"
    ∷ codes "kangaroo"
    ∷ codes "keen"
    ∷ codes "keep"
    ∷ codes "ketchup"
    ∷ codes "key"
    ∷ codes "kick"
    ∷ codes "kid"
    ∷ codes "kidney"
    ∷ codes "kind"
    ∷ codes "kingdom"
    ∷ codes "kiss"
    ∷ codes "kit"
    ∷ codes "kitchen"
    ∷ codes "kite"
    ∷ codes "kitten"
    ∷ codes "kiwi"
    ∷ codes "knee"
    ∷ codes "knife"
    ∷ codes "knock"
    ∷ codes "know"
    ∷ codes "lab"
    ∷ codes "label"
    ∷ codes "labor"
    ∷ codes "ladder"
    ∷ codes "lady"
    ∷ codes "lake"
    ∷ codes "lamp"
    ∷ codes "language"
    ∷ codes "laptop"
    ∷ codes "large"
    ∷ codes "later"
    ∷ codes "latin"
    ∷ codes "laugh"
    ∷ codes "laundry"
    ∷ codes "lava"
    ∷ codes "law"
    ∷ codes "lawn"
    ∷ codes "lawsuit"
    ∷ codes "layer"
    ∷ codes "lazy"
    ∷ codes "leader"
    ∷ codes "leaf"
    ∷ codes "learn"
    ∷ codes "leave"
    ∷ codes "lecture"
    ∷ codes "left"
    ∷ codes "leg"
    ∷ codes "legal"
    ∷ codes "legend"
    ∷ codes "leisure"
    ∷ codes "lemon"
    ∷ codes "lend"
    ∷ codes "length"
    ∷ codes "lens"
    ∷ codes "leopard"
    ∷ codes "lesson"
    ∷ codes "letter"
    ∷ codes "level"
    ∷ codes "liar"
    ∷ codes "liberty"
    ∷ codes "library"
    ∷ codes "license"
    ∷ codes "life"
    ∷ codes "lift"
    ∷ codes "light"
    ∷ codes "like"
    ∷ codes "limb"
    ∷ codes "limit"
    ∷ codes "link"
    ∷ codes "lion"
    ∷ codes "liquid"
    ∷ codes "list"
    ∷ codes "little"
    ∷ codes "live"
    ∷ codes "lizard"
    ∷ codes "load"
    ∷ codes "loan"
    ∷ codes "lobster"
    ∷ codes "local"
    ∷ codes "lock"
    ∷ codes "logic"
    ∷ codes "lonely"
    ∷ codes "long"
    ∷ codes "loop"
    ∷ codes "lottery"
    ∷ codes "loud"
    ∷ codes "lounge"
    ∷ codes "love"
    ∷ codes "loyal"
    ∷ codes "lucky"
    ∷ codes "luggage"
    ∷ codes "lumber"
    ∷ codes "lunar"
    ∷ codes "lunch"
    ∷ codes "luxury"
    ∷ codes "lyrics"
    ∷ codes "machine"
    ∷ codes "mad"
    ∷ codes "magic"
    ∷ codes "magnet"
    ∷ codes "maid"
    ∷ codes "mail"
    ∷ codes "main"
    ∷ codes "major"
    ∷ codes "make"
    ∷ codes "mammal"
    ∷ codes "man"
    ∷ codes "manage"
    ∷ codes "mandate"
    ∷ codes "mango"
    ∷ codes "mansion"
    ∷ codes "manual"
    ∷ codes "maple"
    ∷ codes "marble"
    ∷ codes "march"
    ∷ codes "margin"
    ∷ codes "marine"
    ∷ codes "market"
    ∷ codes "marriage"
    ∷ codes "mask"
    ∷ codes "mass"
    ∷ codes "master"
    ∷ codes "match"
    ∷ codes "material"
    ∷ codes "math"
    ∷ codes "matrix"
    ∷ codes "matter"
    ∷ codes "maximum"
    ∷ codes "maze"
    ∷ codes "meadow"
    ∷ codes "mean"
    ∷ codes "measure"
    ∷ codes "meat"
    ∷ codes "mechanic"
    ∷ codes "medal"
    ∷ codes "media"
    ∷ codes "melody"
    ∷ codes "melt"
    ∷ codes "member"
    ∷ codes "memory"
    ∷ codes "mention"
    ∷ codes "menu"
    ∷ codes "mercy"
    ∷ codes "merge"
    ∷ codes "merit"
    ∷ codes "merry"
    ∷ codes "mesh"
    ∷ codes "message"
    ∷ codes "metal"
    ∷ codes "method"
    ∷ codes "middle"
    ∷ codes "midnight"
    ∷ codes "milk"
    ∷ codes "million"
    ∷ codes "mimic"
    ∷ codes "mind"
    ∷ codes "minimum"
    ∷ codes "minor"
    ∷ codes "minute"
    ∷ codes "miracle"
    ∷ codes "mirror"
    ∷ codes "misery"
    ∷ codes "miss"
    ∷ codes "mistake"
    ∷ codes "mix"
    ∷ codes "mixed"
    ∷ codes "mixture"
    ∷ codes "mobile"
    ∷ codes "model"
    ∷ codes "modify"
    ∷ codes "mom"
    ∷ codes "moment"
    ∷ codes "monitor"
    ∷ codes "monkey"
    ∷ codes "monster"
    ∷ codes "month"
    ∷ codes "moon"
    ∷ codes "moral"
    ∷ codes "more"
    ∷ codes "morning"
    ∷ codes "mosquito"
    ∷ codes "mother"
    ∷ codes "motion"
    ∷ codes "motor"
    ∷ codes "mountain"
    ∷ codes "mouse"
    ∷ codes "move"
    ∷ codes "movie"
    ∷ codes "much"
    ∷ codes "muffin"
    ∷ codes "mule"
    ∷ codes "multiply"
    ∷ codes "muscle"
    ∷ codes "museum"
    ∷ codes "mushroom"
    ∷ codes "music"
    ∷ codes "must"
    ∷ codes "mutual"
    ∷ codes "myself"
    ∷ codes "mystery"
    ∷ codes "myth"
    ∷ codes "naive"
    ∷ codes "name"
    ∷ codes "napkin"
    ∷ codes "narrow"
    ∷ codes "nasty"
    ∷ codes "nation"
    ∷ codes "nature"
    ∷ codes "near"
    ∷ codes "neck"
    ∷ codes "need"
    ∷ codes "negative"
    ∷ codes "neglect"
    ∷ codes "neither"
    ∷ codes "nephew"
    ∷ codes "nerve"
    ∷ codes "nest"
    ∷ codes "net"
    ∷ codes "network"
    ∷ codes "neutral"
    ∷ codes "never"
    ∷ codes "news"
    ∷ codes "next"
    ∷ codes "nice"
    ∷ codes "night"
    ∷ codes "noble"
    ∷ codes "noise"
    ∷ codes "nominee"
    ∷ codes "noodle"
    ∷ codes "normal"
    ∷ codes "north"
    ∷ codes "nose"
    ∷ codes "notable"
    ∷ codes "note"
    ∷ codes "nothing"
    ∷ codes "notice"
    ∷ codes "novel"
    ∷ codes "now"
    ∷ codes "nuclear"
    ∷ codes "number"
    ∷ codes "nurse"
    ∷ codes "nut"
    ∷ codes "oak"
    ∷ codes "obey"
    ∷ codes "object"
    ∷ codes "oblige"
    ∷ codes "obscure"
    ∷ codes "observe"
    ∷ codes "obtain"
    ∷ codes "obvious"
    ∷ codes "occur"
    ∷ codes "ocean"
    ∷ codes "october"
    ∷ codes "odor"
    ∷ codes "off"
    ∷ codes "offer"
    ∷ codes "office"
    ∷ codes "often"
    ∷ codes "oil"
    ∷ codes "okay"
    ∷ codes "old"
    ∷ codes "olive"
    ∷ codes "olympic"
    ∷ codes "omit"
    ∷ codes "once"
    ∷ codes "one"
    ∷ codes "onion"
    ∷ codes "online"
    ∷ codes "only"
    ∷ codes "open"
    ∷ codes "opera"
    ∷ codes "opinion"
    ∷ codes "oppose"
    ∷ codes "option"
    ∷ codes "orange"
    ∷ codes "orbit"
    ∷ codes "orchard"
    ∷ codes "order"
    ∷ codes "ordinary"
    ∷ codes "organ"
    ∷ codes "orient"
    ∷ codes "original"
    ∷ codes "orphan"
    ∷ codes "ostrich"
    ∷ codes "other"
    ∷ codes "outdoor"
    ∷ codes "outer"
    ∷ codes "output"
    ∷ codes "outside"
    ∷ codes "oval"
    ∷ codes "oven"
    ∷ codes "over"
    ∷ codes "own"
    ∷ codes "owner"
    ∷ codes "oxygen"
    ∷ codes "oyster"
    ∷ codes "ozone"
    ∷ codes "pact"
    ∷ codes "paddle"
    ∷ codes "page"
    ∷ codes "pair"
    ∷ codes "palace"
    ∷ codes "palm"
    ∷ codes "panda"
    ∷ codes "panel"
    ∷ codes "panic"
    ∷ codes "panther"
    ∷ codes "paper"
    ∷ codes "parade"
    ∷ codes "parent"
    ∷ codes "park"
    ∷ codes "parrot"
    ∷ codes "party"
    ∷ codes "pass"
    ∷ codes "patch"
    ∷ codes "path"
    ∷ codes "patient"
    ∷ codes "patrol"
    ∷ codes "pattern"
    ∷ codes "pause"
    ∷ codes "pave"
    ∷ codes "payment"
    ∷ codes "peace"
    ∷ codes "peanut"
    ∷ codes "pear"
    ∷ codes "peasant"
    ∷ codes "pelican"
    ∷ codes "pen"
    ∷ codes "penalty"
    ∷ codes "pencil"
    ∷ codes "people"
    ∷ codes "pepper"
    ∷ codes "perfect"
    ∷ codes "permit"
    ∷ codes "person"
    ∷ codes "pet"
    ∷ codes "phone"
    ∷ codes "photo"
    ∷ codes "phrase"
    ∷ codes "physical"
    ∷ codes "piano"
    ∷ codes "picnic"
    ∷ codes "picture"
    ∷ codes "piece"
    ∷ codes "pig"
    ∷ codes "pigeon"
    ∷ codes "pill"
    ∷ codes "pilot"
    ∷ codes "pink"
    ∷ codes "pioneer"
    ∷ codes "pipe"
    ∷ codes "pistol"
    ∷ codes "pitch"
    ∷ codes "pizza"
    ∷ codes "place"
    ∷ codes "planet"
    ∷ codes "plastic"
    ∷ codes "plate"
    ∷ codes "play"
    ∷ codes "please"
    ∷ codes "pledge"
    ∷ codes "pluck"
    ∷ codes "plug"
    ∷ codes "plunge"
    ∷ codes "poem"
    ∷ codes "poet"
    ∷ codes "point"
    ∷ codes "polar"
    ∷ codes "pole"
    ∷ codes "police"
    ∷ codes "pond"
    ∷ codes "pony"
    ∷ codes "pool"
    ∷ codes "popular"
    ∷ codes "portion"
    ∷ codes "position"
    ∷ codes "possible"
    ∷ codes "post"
    ∷ codes "potato"
    ∷ codes "pottery"
    ∷ codes "poverty"
    ∷ codes "powder"
    ∷ codes "power"
    ∷ codes "practice"
    ∷ codes "praise"
    ∷ codes "predict"
    ∷ codes "prefer"
    ∷ codes "prepare"
    ∷ codes "present"
    ∷ codes "pretty"
    ∷ codes "prevent"
    ∷ codes "price"
    ∷ codes "pride"
    ∷ codes "primary"
    ∷ codes "print"
    ∷ codes "priority"
    ∷ codes "prison"
    ∷ codes "private"
    ∷ codes "prize"
    ∷ codes "problem"
    ∷ codes "process"
    ∷ codes "produce"
    ∷ codes "profit"
    ∷ codes "program"
    ∷ codes "project"
    ∷ codes "promote"
    ∷ codes "proof"
    ∷ codes "property"
    ∷ codes "prosper"
    ∷ codes "protect"
    ∷ codes "proud"
    ∷ codes "provide"
    ∷ codes "public"
    ∷ codes "pudding"
    ∷ codes "pull"
    ∷ codes "pulp"
    ∷ codes "pulse"
    ∷ codes "pumpkin"
    ∷ codes "punch"
    ∷ codes "pupil"
    ∷ codes "puppy"
    ∷ codes "purchase"
    ∷ codes "purity"
    ∷ codes "purpose"
    ∷ codes "purse"
    ∷ codes "push"
    ∷ codes "put"
    ∷ codes "puzzle"
    ∷ codes "pyramid"
    ∷ codes "quality"
    ∷ codes "quantum"
    ∷ codes "quarter"
    ∷ codes "question"
    ∷ codes "quick"
    ∷ codes "quit"
    ∷ codes "quiz"
    ∷ codes "quote"
    ∷ codes "rabbit"
    ∷ codes "raccoon"
    ∷ codes "race"
    ∷ codes "rack"
    ∷ codes "radar"
    ∷ codes "radio"
    ∷ codes "rail"
    ∷ codes "rain"
    ∷ codes "raise"
    ∷ codes "rally"
    ∷ codes "ramp"
    ∷ codes "ranch"
    ∷ codes "random"
    ∷ codes "range"
    ∷ codes "rapid"
    ∷ codes "rare"
    ∷ codes "rate"
    ∷ codes "rather"
    ∷ codes "raven"
    ∷ codes "raw"
    ∷ codes "razor"
    ∷ codes "ready"
    ∷ codes "real"
    ∷ codes "reason"
    ∷ codes "rebel"
    ∷ codes "rebuild"
    ∷ codes "recall"
    ∷ codes "receive"
    ∷ codes "recipe"
    ∷ codes "record"
    ∷ codes "recycle"
    ∷ codes "reduce"
    ∷ codes "reflect"
    ∷ codes "reform"
    ∷ codes "refuse"
    ∷ codes "region"
    ∷ codes "regret"
    ∷ codes "regular"
    ∷ codes "reject"
    ∷ codes "relax"
    ∷ codes "release"
    ∷ codes "relief"
    ∷ codes "rely"
    ∷ codes "remain"
    ∷ codes "remember"
    ∷ codes "remind"
    ∷ codes "remove"
    ∷ codes "render"
    ∷ codes "renew"
    ∷ codes "rent"
    ∷ codes "reopen"
    ∷ codes "repair"
    ∷ codes "repeat"
    ∷ codes "replace"
    ∷ codes "report"
    ∷ codes "require"
    ∷ codes "rescue"
    ∷ codes "resemble"
    ∷ codes "resist"
    ∷ codes "resource"
    ∷ codes "response"
    ∷ codes "result"
    ∷ codes "retire"
    ∷ codes "retreat"
    ∷ codes "return"
    ∷ codes "reunion"
    ∷ codes "reveal"
    ∷ codes "review"
    ∷ codes "reward"
    ∷ codes "rhythm"
    ∷ codes "rib"
    ∷ codes "ribbon"
    ∷ codes "rice"
    ∷ codes "rich"
    ∷ codes "ride"
    ∷ codes "ridge"
    ∷ codes "rifle"
    ∷ codes "right"
    ∷ codes "rigid"
    ∷ codes "ring"
    ∷ codes "riot"
    ∷ codes "ripple"
    ∷ codes "risk"
    ∷ codes "ritual"
    ∷ codes "rival"
    ∷ codes "river"
    ∷ codes "road"
    ∷ codes "roast"
    ∷ codes "robot"
    ∷ codes "robust"
    ∷ codes "rocket"
    ∷ codes "romance"
    ∷ codes "roof"
    ∷ codes "rookie"
    ∷ codes "room"
    ∷ codes "rose"
    ∷ codes "rotate"
    ∷ codes "rough"
    ∷ codes "round"
    ∷ codes "route"
    ∷ codes "royal"
    ∷ codes "rubber"
    ∷ codes "rude"
    ∷ codes "rug"
    ∷ codes "rule"
    ∷ codes "run"
    ∷ codes "runway"
    ∷ codes "rural"
    ∷ codes "sad"
    ∷ codes "saddle"
    ∷ codes "sadness"
    ∷ codes "safe"
    ∷ codes "sail"
    ∷ codes "salad"
    ∷ codes "salmon"
    ∷ codes "salon"
    ∷ codes "salt"
    ∷ codes "salute"
    ∷ codes "same"
    ∷ codes "sample"
    ∷ codes "sand"
    ∷ codes "satisfy"
    ∷ codes "satoshi"
    ∷ codes "sauce"
    ∷ codes "sausage"
    ∷ codes "save"
    ∷ codes "say"
    ∷ codes "scale"
    ∷ codes "scan"
    ∷ codes "scare"
    ∷ codes "scatter"
    ∷ codes "scene"
    ∷ codes "scheme"
    ∷ codes "school"
    ∷ codes "science"
    ∷ codes "scissors"
    ∷ codes "scorpion"
    ∷ codes "scout"
    ∷ codes "scrap"
    ∷ codes "screen"
    ∷ codes "script"
    ∷ codes "scrub"
    ∷ codes "sea"
    ∷ codes "search"
    ∷ codes "season"
    ∷ codes "seat"
    ∷ codes "second"
    ∷ codes "secret"
    ∷ codes "section"
    ∷ codes "security"
    ∷ codes "seed"
    ∷ codes "seek"
    ∷ codes "segment"
    ∷ codes "select"
    ∷ codes "sell"
    ∷ codes "seminar"
    ∷ codes "senior"
    ∷ codes "sense"
    ∷ codes "sentence"
    ∷ codes "series"
    ∷ codes "service"
    ∷ codes "session"
    ∷ codes "settle"
    ∷ codes "setup"
    ∷ codes "seven"
    ∷ codes "shadow"
    ∷ codes "shaft"
    ∷ codes "shallow"
    ∷ codes "share"
    ∷ codes "shed"
    ∷ codes "shell"
    ∷ codes "sheriff"
    ∷ codes "shield"
    ∷ codes "shift"
    ∷ codes "shine"
    ∷ codes "ship"
    ∷ codes "shiver"
    ∷ codes "shock"
    ∷ codes "shoe"
    ∷ codes "shoot"
    ∷ codes "shop"
    ∷ codes "short"
    ∷ codes "shoulder"
    ∷ codes "shove"
    ∷ codes "shrimp"
    ∷ codes "shrug"
    ∷ codes "shuffle"
    ∷ codes "shy"
    ∷ codes "sibling"
    ∷ codes "sick"
    ∷ codes "side"
    ∷ codes "siege"
    ∷ codes "sight"
    ∷ codes "sign"
    ∷ codes "silent"
    ∷ codes "silk"
    ∷ codes "silly"
    ∷ codes "silver"
    ∷ codes "similar"
    ∷ codes "simple"
    ∷ codes "since"
    ∷ codes "sing"
    ∷ codes "siren"
    ∷ codes "sister"
    ∷ codes "situate"
    ∷ codes "six"
    ∷ codes "size"
    ∷ codes "skate"
    ∷ codes "sketch"
    ∷ codes "ski"
    ∷ codes "skill"
    ∷ codes "skin"
    ∷ codes "skirt"
    ∷ codes "skull"
    ∷ codes "slab"
    ∷ codes "slam"
    ∷ codes "sleep"
    ∷ codes "slender"
    ∷ codes "slice"
    ∷ codes "slide"
    ∷ codes "slight"
    ∷ codes "slim"
    ∷ codes "slogan"
    ∷ codes "slot"
    ∷ codes "slow"
    ∷ codes "slush"
    ∷ codes "small"
    ∷ codes "smart"
    ∷ codes "smile"
    ∷ codes "smoke"
    ∷ codes "smooth"
    ∷ codes "snack"
    ∷ codes "snake"
    ∷ codes "snap"
    ∷ codes "sniff"
    ∷ codes "snow"
    ∷ codes "soap"
    ∷ codes "soccer"
    ∷ codes "social"
    ∷ codes "sock"
    ∷ codes "soda"
    ∷ codes "soft"
    ∷ codes "solar"
    ∷ codes "soldier"
    ∷ codes "solid"
    ∷ codes "solution"
    ∷ codes "solve"
    ∷ codes "someone"
    ∷ codes "song"
    ∷ codes "soon"
    ∷ codes "sorry"
    ∷ codes "sort"
    ∷ codes "soul"
    ∷ codes "sound"
    ∷ codes "soup"
    ∷ codes "source"
    ∷ codes "south"
    ∷ codes "space"
    ∷ codes "spare"
    ∷ codes "spatial"
    ∷ codes "spawn"
    ∷ codes "speak"
    ∷ codes "special"
    ∷ codes "speed"
    ∷ codes "spell"
    ∷ codes "spend"
    ∷ codes "sphere"
    ∷ codes "spice"
    ∷ codes "spider"
    ∷ codes "spike"
    ∷ codes "spin"
    ∷ codes "spirit"
    ∷ codes "split"
    ∷ codes "spoil"
    ∷ codes "sponsor"
    ∷ codes "spoon"
    ∷ codes "sport"
    ∷ codes "spot"
    ∷ codes "spray"
    ∷ codes "spread"
    ∷ codes "spring"
    ∷ codes "spy"
    ∷ codes "square"
    ∷ codes "squeeze"
    ∷ codes "squirrel"
    ∷ codes "stable"
    ∷ codes "stadium"
    ∷ codes "staff"
    ∷ codes "stage"
    ∷ codes "stairs"
    ∷ codes "stamp"
    ∷ codes "stand"
    ∷ codes "start"
    ∷ codes "state"
    ∷ codes "stay"
    ∷ codes "steak"
    ∷ codes "steel"
    ∷ codes "stem"
    ∷ codes "step"
    ∷ codes "stereo"
    ∷ codes "stick"
    ∷ codes "still"
    ∷ codes "sting"
    ∷ codes "stock"
    ∷ codes "stomach"
    ∷ codes "stone"
    ∷ codes "stool"
    ∷ codes "story"
    ∷ codes "stove"
    ∷ codes "strategy"
    ∷ codes "street"
    ∷ codes "strike"
    ∷ codes "strong"
    ∷ codes "struggle"
    ∷ codes "student"
    ∷ codes "stuff"
    ∷ codes "stumble"
    ∷ codes "style"
    ∷ codes "subject"
    ∷ codes "submit"
    ∷ codes "subway"
    ∷ codes "success"
    ∷ codes "such"
    ∷ codes "sudden"
    ∷ codes "suffer"
    ∷ codes "sugar"
    ∷ codes "suggest"
    ∷ codes "suit"
    ∷ codes "summer"
    ∷ codes "sun"
    ∷ codes "sunny"
    ∷ codes "sunset"
    ∷ codes "super"
    ∷ codes "supply"
    ∷ codes "supreme"
    ∷ codes "sure"
    ∷ codes "surface"
    ∷ codes "surge"
    ∷ codes "surprise"
    ∷ codes "surround"
    ∷ codes "survey"
    ∷ codes "suspect"
    ∷ codes "sustain"
    ∷ codes "swallow"
    ∷ codes "swamp"
    ∷ codes "swap"
    ∷ codes "swarm"
    ∷ codes "swear"
    ∷ codes "sweet"
    ∷ codes "swift"
    ∷ codes "swim"
    ∷ codes "swing"
    ∷ codes "switch"
    ∷ codes "sword"
    ∷ codes "symbol"
    ∷ codes "symptom"
    ∷ codes "syrup"
    ∷ codes "system"
    ∷ codes "table"
    ∷ codes "tackle"
    ∷ codes "tag"
    ∷ codes "tail"
    ∷ codes "talent"
    ∷ codes "talk"
    ∷ codes "tank"
    ∷ codes "tape"
    ∷ codes "target"
    ∷ codes "task"
    ∷ codes "taste"
    ∷ codes "tattoo"
    ∷ codes "taxi"
    ∷ codes "teach"
    ∷ codes "team"
    ∷ codes "tell"
    ∷ codes "ten"
    ∷ codes "tenant"
    ∷ codes "tennis"
    ∷ codes "tent"
    ∷ codes "term"
    ∷ codes "test"
    ∷ codes "text"
    ∷ codes "thank"
    ∷ codes "that"
    ∷ codes "theme"
    ∷ codes "then"
    ∷ codes "theory"
    ∷ codes "there"
    ∷ codes "they"
    ∷ codes "thing"
    ∷ codes "this"
    ∷ codes "thought"
    ∷ codes "three"
    ∷ codes "thrive"
    ∷ codes "throw"
    ∷ codes "thumb"
    ∷ codes "thunder"
    ∷ codes "ticket"
    ∷ codes "tide"
    ∷ codes "tiger"
    ∷ codes "tilt"
    ∷ codes "timber"
    ∷ codes "time"
    ∷ codes "tiny"
    ∷ codes "tip"
    ∷ codes "tired"
    ∷ codes "tissue"
    ∷ codes "title"
    ∷ codes "toast"
    ∷ codes "tobacco"
    ∷ codes "today"
    ∷ codes "toddler"
    ∷ codes "toe"
    ∷ codes "together"
    ∷ codes "toilet"
    ∷ codes "token"
    ∷ codes "tomato"
    ∷ codes "tomorrow"
    ∷ codes "tone"
    ∷ codes "tongue"
    ∷ codes "tonight"
    ∷ codes "tool"
    ∷ codes "tooth"
    ∷ codes "top"
    ∷ codes "topic"
    ∷ codes "topple"
    ∷ codes "torch"
    ∷ codes "tornado"
    ∷ codes "tortoise"
    ∷ codes "toss"
    ∷ codes "total"
    ∷ codes "tourist"
    ∷ codes "toward"
    ∷ codes "tower"
    ∷ codes "town"
    ∷ codes "toy"
    ∷ codes "track"
    ∷ codes "trade"
    ∷ codes "traffic"
    ∷ codes "tragic"
    ∷ codes "train"
    ∷ codes "transfer"
    ∷ codes "trap"
    ∷ codes "trash"
    ∷ codes "travel"
    ∷ codes "tray"
    ∷ codes "treat"
    ∷ codes "tree"
    ∷ codes "trend"
    ∷ codes "trial"
    ∷ codes "tribe"
    ∷ codes "trick"
    ∷ codes "trigger"
    ∷ codes "trim"
    ∷ codes "trip"
    ∷ codes "trophy"
    ∷ codes "trouble"
    ∷ codes "truck"
    ∷ codes "true"
    ∷ codes "truly"
    ∷ codes "trumpet"
    ∷ codes "trust"
    ∷ codes "truth"
    ∷ codes "try"
    ∷ codes "tube"
    ∷ codes "tuition"
    ∷ codes "tumble"
    ∷ codes "tuna"
    ∷ codes "tunnel"
    ∷ codes "turkey"
    ∷ codes "turn"
    ∷ codes "turtle"
    ∷ codes "twelve"
    ∷ codes "twenty"
    ∷ codes "twice"
    ∷ codes "twin"
    ∷ codes "twist"
    ∷ codes "two"
    ∷ codes "type"
    ∷ codes "typical"
    ∷ codes "ugly"
    ∷ codes "umbrella"
    ∷ codes "unable"
    ∷ codes "unaware"
    ∷ codes "uncle"
    ∷ codes "uncover"
    ∷ codes "under"
    ∷ codes "undo"
    ∷ codes "unfair"
    ∷ codes "unfold"
    ∷ codes "unhappy"
    ∷ codes "uniform"
    ∷ codes "unique"
    ∷ codes "unit"
    ∷ codes "universe"
    ∷ codes "unknown"
    ∷ codes "unlock"
    ∷ codes "until"
    ∷ codes "unusual"
    ∷ codes "unveil"
    ∷ codes "update"
    ∷ codes "upgrade"
    ∷ codes "uphold"
    ∷ codes "upon"
    ∷ codes "upper"
    ∷ codes "upset"
    ∷ codes "urban"
    ∷ codes "urge"
    ∷ codes "usage"
    ∷ codes "use"
    ∷ codes "used"
    ∷ codes "useful"
    ∷ codes "useless"
    ∷ codes "usual"
    ∷ codes "utility"
    ∷ codes "vacant"
    ∷ codes "vacuum"
    ∷ codes "vague"
    ∷ codes "valid"
    ∷ codes "valley"
    ∷ codes "valve"
    ∷ codes "van"
    ∷ codes "vanish"
    ∷ codes "vapor"
    ∷ codes "various"
    ∷ codes "vast"
    ∷ codes "vault"
    ∷ codes "vehicle"
    ∷ codes "velvet"
    ∷ codes "vendor"
    ∷ codes "venture"
    ∷ codes "venue"
    ∷ codes "verb"
    ∷ codes "verify"
    ∷ codes "version"
    ∷ codes "very"
    ∷ codes "vessel"
    ∷ codes "veteran"
    ∷ codes "viable"
    ∷ codes "vibrant"
    ∷ codes "vicious"
    ∷ codes "victory"
    ∷ codes "video"
    ∷ codes "view"
    ∷ codes "village"
    ∷ codes "vintage"
    ∷ codes "violin"
    ∷ codes "virtual"
    ∷ codes "virus"
    ∷ codes "visa"
    ∷ codes "visit"
    ∷ codes "visual"
    ∷ codes "vital"
    ∷ codes "vivid"
    ∷ codes "vocal"
    ∷ codes "voice"
    ∷ codes "void"
    ∷ codes "volcano"
    ∷ codes "volume"
    ∷ codes "vote"
    ∷ codes "voyage"
    ∷ codes "wage"
    ∷ codes "wagon"
    ∷ codes "wait"
    ∷ codes "walk"
    ∷ codes "wall"
    ∷ codes "walnut"
    ∷ codes "want"
    ∷ codes "warfare"
    ∷ codes "warm"
    ∷ codes "warrior"
    ∷ codes "wash"
    ∷ codes "wasp"
    ∷ codes "waste"
    ∷ codes "water"
    ∷ codes "wave"
    ∷ codes "way"
    ∷ codes "wealth"
    ∷ codes "weapon"
    ∷ codes "wear"
    ∷ codes "weasel"
    ∷ codes "weather"
    ∷ codes "web"
    ∷ codes "wedding"
    ∷ codes "weekend"
    ∷ codes "weird"
    ∷ codes "welcome"
    ∷ codes "west"
    ∷ codes "wet"
    ∷ codes "whale"
    ∷ codes "what"
    ∷ codes "wheat"
    ∷ codes "wheel"
    ∷ codes "when"
    ∷ codes "where"
    ∷ codes "whip"
    ∷ codes "whisper"
    ∷ codes "wide"
    ∷ codes "width"
    ∷ codes "wife"
    ∷ codes "wild"
    ∷ codes "will"
    ∷ codes "win"
    ∷ codes "window"
    ∷ codes "wine"
    ∷ codes "wing"
    ∷ codes "wink"
    ∷ codes "winner"
    ∷ codes "winter"
    ∷ codes "wire"
    ∷ codes "wisdom"
    ∷ codes "wise"
    ∷ codes "wish"
    ∷ codes "witness"
    ∷ codes "wolf"
    ∷ codes "woman"
    ∷ codes "wonder"
    ∷ codes "wood"
    ∷ codes "wool"
    ∷ codes "word"
    ∷ codes "work"
    ∷ codes "world"
    ∷ codes "worry"
    ∷ codes "worth"
    ∷ codes "wrap"
    ∷ codes "wreck"
    ∷ codes "wrestle"
    ∷ codes "wrist"
    ∷ codes "write"
    ∷ codes "wrong"
    ∷ codes "yard"
    ∷ codes "year"
    ∷ codes "yellow"
    ∷ codes "you"
    ∷ codes "young"
    ∷ codes "youth"
    ∷ codes "zebra"
    ∷ codes "zero"
    ∷ codes "zone"
    ∷ codes "zoo"
    ∷ []
